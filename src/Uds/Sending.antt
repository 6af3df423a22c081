-- ===== src/Uds/Sending.antt =====
-- A sender's side of a Unix domain socket over its whole life (src/uds/transport_uds.c,
-- src/uds/event_manager_uds.c): messages handed over in between events of its requests.
use libkrossbar.Prelude.{
  ℕ, ◌≡◌, refl, sym, ap, ◌∙◌, Bool, true, false, Option, none, some, List, [], ◌∷◌, ◌++◌, length,
  append_assoc, append-nil, ltb, inl, inr, Bool-cases,
}
use libkrossbar.Cqe.{CqeResult, is_interrupted}
use libkrossbar.Uds.SocketApi.{Socket, TakesHeaders}
use libkrossbar.Uds.{
  Transport, readable, writeable, header_bytes, transport_uds_message_send,
  transport_uds_message_release, transport_uds_write_messages, event_manager_uds_handle_event,
  event_handled, event_manager_uds_wait_writeable, after_write,
}
use libkrossbar.Uds.Stream.{backlog, write_messages-stream, message_send-stream}
use libkrossbar.Uds.Waiting.{readable-SameOut, answered}

-- The messages as they go over the socket, each behind its header.
abbrev pub frames : List (List ℕ) → List ℕ
frames [] = []
frames (body ∷ bodies) = header_bytes (length body) ++ (body ++ frames bodies)

-- A run of the transport in which the owner hands the messages over, in their order.
pub data Sends (s : Socket) : Transport s.Conn → List (List ℕ) → Transport s.Conn → Type 0 where
  stop : {t : Transport s.Conn} → Sends s t [] t
  hands_over :
      {t u : Transport s.Conn} (p : ℕ) (body : List ℕ) (bodies : List (List ℕ))
      → Sends s (transport_uds_message_send s p body t) bodies u
      → Sends s t (body ∷ bodies) u
  releases :
      {t u : Transport s.Conn} (bodies : List (List ℕ))
      → Sends s (transport_uds_message_release s t) bodies u
      → Sends s t bodies u
  reads :
      {t u : Transport s.Conn} (res : CqeResult) (bodies : List (List ℕ))
      → Sends s (event_manager_uds_handle_event s readable res t).1 bodies u
      → Sends s t bodies u
  writes :
      {t u : Transport s.Conn} (res : CqeResult) (bodies : List (List ℕ))
      → Sends s (event_manager_uds_handle_event s writeable res t).1 bodies u
      → Sends s t bodies u

module _ (s : Socket) (whole : TakesHeaders s) where
  -- what is on the socket, and what is still to go out
  abbrev pub outgoing : Transport s.Conn → List ℕ
  outgoing t = s.sent t.conn ++ backlog t.out_messages

  after_write-outgoing :
      (r : Option ℕ × Transport s.Conn) → outgoing (after_write s r) ≡ outgoing r.1
  unfolding after_write event_manager_uds_wait_writeable
  after_write-outgoing (none, t) = refl
  after_write-outgoing (some n, t) = elim (Bool-cases (ltb 0 n)) [
    | inl left ↦ rw left refl
    | inr done ↦ rw done refl
  ]

  writeable-outgoing :
      (interrupted : Bool) (t : Transport s.Conn)
      → outgoing (event_handled s writeable interrupted t).1 ≡ outgoing t
  unfolding event_handled event_manager_uds_wait_writeable
  writeable-outgoing true t = refl
  writeable-outgoing false t =
      after_write-outgoing (transport_uds_write_messages s (answered s t))
      ∙ write_messages-stream s whole (answered s t)

  readable-outgoing :
      (interrupted : Bool) (t : Transport s.Conn)
      → outgoing (event_handled s readable interrupted t).1 ≡ outgoing t
  readable-outgoing interrupted t =
      let same = readable-SameOut s interrupted t in rw (same.sent, same.queue) refl

  -- On a socket that takes headers whole or not at all: after any run of a transport in which messages
  -- are handed over, the bytes on the socket followed by those still to go out are those of before,
  -- then the messages in their order, each behind its header.
  pub Sends-frames :
      (t u : Transport s.Conn) (bodies : List (List ℕ))
      → Sends s t bodies u
      → outgoing u ≡ outgoing t ++ frames bodies
  Sends-frames t u bodies stop = sym (append-nil (outgoing t))
  Sends-frames t u _ (hands_over p body bodies run) =
      Sends-frames (transport_uds_message_send s p body t) u bodies run
      ∙ ap (λ l. l ++ frames bodies) (message_send-stream s p body t)
      ∙ rw
          (
            append_assoc (outgoing t) (header_bytes (length body) ++ body) (frames bodies),
            append_assoc (header_bytes (length body)) body (frames bodies),
          )
          refl
  Sends-frames t u bodies (releases _ run) =
      Sends-frames (transport_uds_message_release s t) u bodies run
      ∙ unfold transport_uds_message_release in refl
  Sends-frames t u bodies (reads res _ run) =
      Sends-frames (event_manager_uds_handle_event s readable res t).1 u bodies run
      ∙ ap (λ l. l ++ frames bodies) (readable-outgoing (is_interrupted res) t)
  Sends-frames t u bodies (writes res _ run) =
      Sends-frames (event_manager_uds_handle_event s writeable res t).1 u bodies run
      ∙ ap (λ l. l ++ frames bodies) (writeable-outgoing (is_interrupted res) t)
