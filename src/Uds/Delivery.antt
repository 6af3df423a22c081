-- ===== src/Uds/Delivery.antt =====
-- A receiver's side of a Unix domain socket over its whole life (src/uds/transport_uds.c,
-- src/uds/event_manager_uds.c): what its events return of the messages that the peer has sent.
use libkrossbar.Prelude.{
  ℕ, ◌≡◌, inl, inr, refl, sym, ap, ◌∙◌, subst, List, [], ◌∷◌, ◌++◌, arith, length, length-append,
  append_assoc,
}
use libkrossbar.Cqe.{CqeResult, is_interrupted}
use libkrossbar.Uds.SocketApi.{Socket, TakesHeaders}
use libkrossbar.Uds.Header.{length-header_bytes}
use libkrossbar.Uds.Stream.{backlog}
use libkrossbar.Uds.Sending.{frames, Sends, Sends-frames}
use libkrossbar.Uds.{
  Transport, InMessage, idle, reading, readable, header_bytes, transport_uds_message_release,
  event_manager_uds_handle_event,
}
use libkrossbar.Uds.Decoding.{deliver, deliver-append, AreSized, IsAt, IsDecoding, readable-Decoded}

-- A run of the receiver: bytes arrive, of those that come; readable events return the messages; and the
-- owner of a message that was returned releases it.
pub data Receives (s : Socket)
    : Transport s.Conn
      → (coming : List ℕ) → List (List ℕ)
      → Transport s.Conn
      → List ℕ
      → Type 0 where
  stop : {t : Transport s.Conn} {coming : List ℕ} → Receives s t coming [] t coming
  arrives :
      {t u : Transport s.Conn} {later : List ℕ} (new coming : List ℕ) (conn' : s.Conn)
      (bodies : List (List ℕ))
      → s.pending conn' ≡ s.pending t.conn ++ new
      → Receives s (record t { conn = conn' }) coming bodies u later
      → Receives s t (new ++ coming) bodies u later
  reads :
      {t u : Transport s.Conn} {coming later : List ℕ} (res : CqeResult) (bodies : List (List ℕ))
      → Receives s (event_manager_uds_handle_event s readable res t).1 coming bodies u later
      → Receives s t coming
          (deliver (event_manager_uds_handle_event s readable res t).0 bodies)
          u
          later
  releases :
      {t u : Transport s.Conn} {coming later : List ℕ} (body : List ℕ) (bodies : List (List ℕ))
      → t.in_message ≡ reading (length body) body
      → Receives s (transport_uds_message_release s t) coming bodies u later
      → Receives s t coming bodies u later

module _ (s : Socket) where
  release-IsDecoding :
      (t : Transport s.Conn) (coming body : List ℕ) (bodies : List (List ℕ))
      → t.in_message ≡ reading (length body) body
      → IsDecoding s t coming bodies
      → IsDecoding s (transport_uds_message_release s t) coming bodies
  unfolding transport_uds_message_release
  release-IsDecoding t coming body bodies is d =
      elim (subst (λ i. IsAt i (s.pending t.conn ++ coming) bodies) is d.0) [
        | inl (all, e) ↦ (e, d.1)
        | inr (lt, rest) ↦ absurd (omega (arith, lt))
      ]

  -- From a transport that has got part of the messages: what a run of the receiver returns, in its
  -- order, are the first of them, and it goes on with the rest.
  pub Receives-IsDecoding :
      (t u : Transport s.Conn) (coming later beyond : List ℕ) (got bodies : List (List ℕ))
      → Receives s t coming got u later
      → IsDecoding s t (coming ++ beyond) bodies
      → (rest : List (List ℕ)) × (bodies ≡ got ++ rest) × IsDecoding s u (later ++ beyond) rest
  Receives-IsDecoding t u coming later beyond _ bodies stop d = (bodies, refl, d)
  Receives-IsDecoding t u _ later beyond got bodies (arrives new coming conn' _ grown run) d =
      Receives-IsDecoding (record t { conn = conn' }) u coming later beyond got bodies run
        (subst (λ l. IsAt t.in_message l bodies) more d.0, d.1)
    where
      more : s.pending t.conn ++ ((new ++ coming) ++ beyond) ≡ s.pending conn' ++ (coming ++ beyond)
      more =
          rw (grown, append_assoc new coming beyond)
            (sym (append_assoc (s.pending t.conn) new (coming ++ beyond)))
  Receives-IsDecoding t u coming later beyond _ bodies (reads res got run) d =
      let (rest, next, d') =
        readable-Decoded s (coming ++ beyond) (is_interrupted res) t bodies d in
      let (rest', next', d'') =
        Receives-IsDecoding (event_manager_uds_handle_event s readable res t).1 u coming later
          beyond got rest run d' in
      (
        rest',
        next
            ∙ ap (deliver (event_manager_uds_handle_event s readable res t).0) next'
            ∙ deliver-append (event_manager_uds_handle_event s readable res t).0 got rest',
        d'',
      )
  Receives-IsDecoding t u coming later beyond got bodies (releases body _ is run) d =
      Receives-IsDecoding (transport_uds_message_release s t) u coming later beyond got bodies run
        (release-IsDecoding t (coming ++ beyond) body bodies is d)

frames-nil : (bodies : List (List ℕ)) → [] ≡ frames bodies → bodies ≡ []
frames-nil [] e = refl
frames-nil (body ∷ bodies) e = absurd (
    omega (
      arith,
      ap length e,
      length-append (header_bytes (length body)) (body ++ frames bodies),
      length-header_bytes (length body),
    ))

all_taken :
    (bodies : List (List ℕ)) (i : InMessage) {ahead : List ℕ}
    → i ≡ idle
    → ahead ≡ []
    → IsAt i ahead bodies
    → bodies ≡ []
all_taken bodies i {ahead} is none_left e =
    frames-nil bodies (sym none_left ∙ subst (λ j. IsAt j ahead bodies) is e)

-- From a sender that has sent nothing to a receiver that has received nothing, over a socket that
-- takes headers whole or not at all, with the bytes arriving in the order in which they were sent,
-- and for messages of at least one and fewer than 2^32 bytes: what the receiver's events return are
-- the first of the messages that were handed over to the sender, each whole and once, in their
-- order. When the sender has nothing left to send, every byte has arrived and was taken off, and
-- the receiver is between messages, they are all of them.
pub Sends-Receives :
    (s r : Socket) (a b : Transport s.Conn) (t u : Transport r.Conn) (later : List ℕ)
    (bodies got : List (List ℕ))
    → TakesHeaders s
    → AreSized bodies
    → s.sent a.conn ≡ []
    → a.out_messages ≡ []
    → Sends s a bodies b
    → r.pending t.conn ≡ []
    → t.in_message ≡ idle
    → Receives r t (s.sent b.conn) got u later
    → (rest : List (List ℕ)) × (bodies ≡ got ++ rest)
      × (b.out_messages ≡ [] → later ≡ [] → r.pending u.conn ≡ [] → u.in_message ≡ idle → rest ≡ [])
Sends-Receives s r a b t u later bodies got whole sized quiet empty sends fresh is run =
    let sent : s.sent b.conn ++ backlog b.out_messages ≡ frames bodies =
      Sends-frames s whole a b bodies sends ∙ rw (quiet, empty) refl in
    let (rest, first, d) =
      Receives-IsDecoding r t u (s.sent b.conn) later (backlog b.out_messages) got bodies run
        (rw (is, fresh) sent, sized) in
    let ahead : b.out_messages ≡ []
        → later ≡ []
        → r.pending u.conn ≡ []
        → r.pending u.conn ++ (later ++ backlog b.out_messages) ≡ [] =
      λ done all off. rw (off, all, done) refl in
    (
      rest,
      first,
      λ done all off between. all_taken rest u.in_message between (ahead done all off) d.0,
    )
