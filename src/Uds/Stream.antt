-- ===== src/Uds/Stream.antt =====
-- What `transport_uds_write_messages` puts on the socket (src/uds/transport_uds.c).
use libkrossbar.Prelude.{
  ℕ, ◌≤◌, ◌≡◌, refl, ◌∙◌, ap, true, Option, none, some, List, [], ◌∷◌, ◌++◌, arith, inl, inr,
  if◌then◌else◌, ltb, length, take, drop, take-append-drop, take-all, append_assoc, append-nil,
  Option-cases, Bool-cases, ◌⊎◌,
}
use libkrossbar.Uds.SocketApi.{Socket, TakesHeaders}
use libkrossbar.Uds.Header.{length-header_bytes}
use libkrossbar.Uds.{
  OutMessage, Transport, Written, header_bytes, send_header, write_loop, header_result, data_result,
  headed_result, transport_uds_write_messages, transport_uds_message_send,
}

-- what is still to go out for a message, and for a queue
abbrev pub header_left : OutMessage → List ℕ
header_left msg = if msg.header_sent then [] else header_bytes (length msg.bytes)

abbrev pub backlog : List OutMessage → List ℕ
backlog [] = []
backlog (msg ∷ rest) = (header_left msg ++ msg.bytes) ++ backlog rest

glue {ℓ} : {A : Type ℓ} (a b c d e : List A) → b ++ c ≡ d → (a ++ b) ++ (c ++ e) ≡ a ++ (d ++ e)
glue a b c d e h = rw (append_assoc a b (c ++ e), ← append_assoc b c e, h)

module _ (s : Socket) (whole : TakesHeaders s) where
  sent_header :
      (k : ℕ) (c : s.Conn) (n : ℕ)
      → (s.send (header_bytes k) c).0 ≡ some n
      → s.sent (s.send (header_bytes k) c).1 ≡ s.sent c ++ header_bytes k
  sent_header k c n h =
      let all : n ≡ length (header_bytes k) =
        whole (header_bytes k) c n h (omega (arith, length-header_bytes k)) in
      (s.send_some (header_bytes k) c n h).1
      ∙ ap (λ l. s.sent c ++ l) (take-all n (header_bytes k) (omega (arith, all)))

  -- The header goes out once, whole, or nothing does.
  send_header-sent :
      (msg : OutMessage) (c : s.Conn)
      → ((send_header s msg c).0 ≡ none) × (s.sent (send_header s msg c).1 ≡ s.sent c)
        ⊎ ((send_header s msg c).0 ≡ some (record msg { header_sent = true }))
          × (s.sent (send_header s msg c).1 ≡ s.sent c ++ header_left msg)
  unfolding send_header header_result
  send_header-sent msg c = elim (Bool-cases msg.header_sent) [
    | inl done ↦ inr (ground arith, rw (done, append-nil))
    | inr new ↦ elim (Option-cases (s.send (header_bytes (length msg.bytes)) c).0) [
      | inl failed ↦ rw new (rw (failed, header_result) (inl (refl, s.send_error _ c failed)))
      | inr (n, took) ↦
          rw new (rw (took, header_result) (inr (refl, sent_header (length msg.bytes) c n took)))
    ]
  ]

  -- The stream of a run of the loop: what is on the socket, and what is still to go out.
  abbrev stream : Written s.Conn → List ℕ
  stream w = s.sent w.conn ++ backlog w.left

  module _ (rest : List OutMessage) (later : ℕ → List ℕ → s.Conn → Written s.Conn)
      (goes_on : (k : ℕ) (l : List ℕ) (c : s.Conn)
        → stream (later k l c) ≡ s.sent c ++ backlog rest)
      (count : ℕ) (freed : List ℕ) where
    data_result-stream :
        (msg : OutMessage) (c : s.Conn) (r : Option ℕ × s.Conn)
        → msg.header_sent ≡ true
        → (r.0 ≡ none → s.sent r.1 ≡ s.sent c)
        → ((n : ℕ)
            → r.0 ≡ some n
            → (n ≤ length msg.bytes) × (s.sent r.1 ≡ s.sent c ++ take n msg.bytes))
        → stream (data_result s msg rest count freed later r)
          ≡ s.sent c ++ (msg.bytes ++ backlog rest)
    unfolding data_result
    data_result-stream msg c (none, c') done error took = rw (done, error refl)
    data_result-stream msg c (some n, c') done error took =
        elim (Bool-cases (ltb n (length msg.bytes))) [
          | inl part ↦ rw part (
              rw (done, (took n refl).1)
                (glue (s.sent c) (take n msg.bytes) (drop n msg.bytes) msg.bytes (backlog rest)
                  (take-append-drop n msg.bytes)))
          | inr all ↦ rw all (
              goes_on _ _ c'
              ∙ rw ((took n refl).1, take-all n msg.bytes (ground arith))
                  (append_assoc (s.sent c) msg.bytes (backlog rest)))
        ]

    headed_result-stream :
        (msg : OutMessage) (c : s.Conn)
        → stream (headed_result s msg rest count freed later (send_header s msg c))
          ≡ s.sent c ++ backlog (msg ∷ rest)
    unfolding headed_result
    headed_result-stream msg c = elim (send_header-sent msg c) [
      | inl (failed, same) ↦ rw (failed, headed_result) (rw same)
      | inr (headed, on_wire) ↦
          rw (headed, headed_result)
            (data_result-stream (record msg { header_sent = true }) (send_header s msg c).1
                (s.send msg.bytes (send_header s msg c).1) refl (s.send_error msg.bytes _)
                (s.send_some msg.bytes _)
              ∙ rw
                  (
                    on_wire,
                    append_assoc (s.sent c) (header_left msg) (msg.bytes ++ backlog rest),
                    append_assoc (header_left msg) msg.bytes (backlog rest),
                  )
                  refl)
    ]

  write_loop-stream :
      (msgs : List OutMessage) (count : ℕ) (freed : List ℕ) (c : s.Conn)
      → stream (write_loop s msgs count freed c) ≡ s.sent c ++ backlog msgs
  unfolding write_loop
  write_loop-stream [] count freed c = refl
  write_loop-stream (msg ∷ rest) count freed c =
      headed_result-stream rest (write_loop s rest) (write_loop-stream rest) count freed msg c

  -- On a socket that takes headers whole or not at all, however it splits the sends of the data and
  -- wherever it fails: the bytes on the socket followed by those still to go out are the same after
  -- `transport_uds_write_messages` as before.
  pub write_messages-stream :
      (t : Transport s.Conn)
      → let t' = (transport_uds_write_messages s t).1 in
        s.sent t'.conn ++ backlog t'.out_messages ≡ s.sent t.conn ++ backlog t.out_messages
  unfolding transport_uds_write_messages
  write_messages-stream t = write_loop-stream t.out_messages t.out_message_count t.freed t.conn

backlog-append : (xs ys : List OutMessage) → backlog (xs ++ ys) ≡ backlog xs ++ backlog ys
backlog-append [] ys = refl
backlog-append (x ∷ xs) ys =
    rw (backlog-append xs ys, append_assoc (header_left x ++ x.bytes) (backlog xs) (backlog ys))

-- After `transport_uds_message_send` the bytes on the socket followed by those still to go out are
-- those of before, then the header of the message and its bytes.
pub message_send-stream :
    (s : Socket) (p : ℕ) (bytes : List ℕ) (t : Transport s.Conn)
    → let t' = transport_uds_message_send s p bytes t in
      s.sent t'.conn ++ backlog t'.out_messages
      ≡ (s.sent t.conn ++ backlog t.out_messages) ++ (header_bytes (length bytes) ++ bytes)
unfolding transport_uds_message_send
message_send-stream s p bytes t =
    rw
      (
        backlog-append t.out_messages,
        append-nil,
        ← append_assoc (s.sent t.conn) (backlog t.out_messages)
            (header_bytes (length bytes) ++ bytes),
      )
      refl
