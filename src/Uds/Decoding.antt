-- ===== src/Uds/Decoding.antt =====
-- One readable event of src/uds/event_manager_uds.c, on a stream of messages: what it returns is the
-- next message, whole (src/uds/transport_uds.c).
use libkrossbar.Prelude.{
  ℕ, ◌+◌, ◌-◌, ◌<◌, ◌^◌, ◌≡◌, ◌⊎◌, inl, inr, refl, sym, ap, ◌∙◌, subst, Bool, true, false, Option,
  none, some, List, [], ◌∷◌, ◌++◌, arith, length, length-append, append_assoc, append-cancel, ltb,
  ◌==◌, Bool-cases,
}
use libkrossbar.Uds.SocketApi.{Socket}
use libkrossbar.Uds.Header.{read_header-header_bytes, length-header_bytes}
use libkrossbar.Uds.Frames.{Received, receive-Received, receive_data-Received, receive-idle, peeked}
use libkrossbar.Uds.Sending.{frames}
use libkrossbar.Uds.{
  Transport, InMessage, idle, reading, readable, header_bytes, read_header, header_seen,
  header_read, receive_data, transport_uds_message_receive, event_handled,
  event_manager_uds_wait_readable,
}

abbrev pub deliver : Option (List ℕ) → List (List ℕ) → List (List ℕ)
deliver none bodies = bodies
deliver (some body) bodies = body ∷ bodies

-- Messages that the header's length can tell, none empty.
abbrev pub AreSized : List (List ℕ) → Type 0
AreSized [] = Unit
AreSized (body ∷ bodies) = (0 < length body) × (length body < 2 ^ 32) × AreSized bodies

-- The bytes `ahead` complete the message that is read and hold the messages `bodies`, less one that was
-- returned and not yet released.
abbrev pub IsAt : InMessage → (ahead : List ℕ) → List (List ℕ) → Type 0
IsAt idle ahead bodies = ahead ≡ frames bodies
IsAt (reading n got) ahead bodies =
    ((length got ≡ n) × (ahead ≡ frames bodies))
    ⊎ ((length got < n)
        × ((body : List ℕ) × (rest : List (List ℕ)) × (bodies ≡ body ∷ rest)
            × (length body ≡ n)
            × (got ++ ahead ≡ body ++ frames rest)))

pub deliver-append :
    (o : Option (List ℕ)) (xs ys : List (List ℕ)) → deliver o (xs ++ ys) ≡ deliver o xs ++ ys
deliver-append none xs ys = refl
deliver-append (some body) xs ys = refl

module _ (s : Socket) where
  abbrev pub IsDecoding : Transport s.Conn → List ℕ → List (List ℕ) → Type 0
  IsDecoding t coming bodies =
      IsAt t.in_message (s.pending t.conn ++ coming) bodies × AreSized bodies

  -- What a receive leaves of the messages to come.
  abbrev pub Decoded : List ℕ → List (List ℕ) → Option (List ℕ) × Transport s.Conn → Type 0
  Decoded coming bodies r =
      (rest : List (List ℕ)) × (bodies ≡ deliver r.0 rest) × IsDecoding r.1 coming rest

  module _ (coming : List ℕ) where
    -- The bytes ahead after a receive has gone on from `before`.
    kept_ahead :
        (n : ℕ) (before pending goal : List ℕ) (r : Option (List ℕ) × Transport s.Conn)
        → before ++ (pending ++ coming) ≡ goal
        → (v : Received s n before pending r) → v.received ++ (s.pending r.1.conn ++ coming) ≡ goal
    kept_ahead n before pending goal r e v =
        sym (append_assoc v.received (s.pending r.1.conn) coming)
        ∙ ap (λ l. l ++ coming) v.kept
        ∙ append_assoc before pending coming
        ∙ e

    -- A message that is there in part.
    partial-Decoded :
        (n : ℕ) (before pending body : List ℕ) (rest : List (List ℕ))
        (r : Option (List ℕ) × Transport s.Conn)
        → AreSized (body ∷ rest)
        → length before < n
        → length body ≡ n
        → before ++ (pending ++ coming) ≡ body ++ frames rest
        → Received s n before pending r
        → Decoded coming (body ∷ rest) r
    partial-Decoded n before pending body rest (none, t) sized lt full e v = (
      body ∷ rest,
      refl,
      (
        rw v.reads_on
            (inr (short, (body, rest, refl, full, kept_ahead n before pending _ (none, t) e v))),
        sized,
      ),
    )
      where
        short : length v.received < n
        short = elim (Bool-cases (ltb 0 (length v.taken))) [
          | inl some_new ↦ v.partial refl (ground arith)
          | inr none_new ↦ ground (arith, ap length v.goes_on, length-append before v.taken, lt)
        ]
    partial-Decoded n before pending body rest (some b, t) sized lt full e v =
        let d = v.delivered b refl in
        let all : length v.received ≡ n = ap length (sym d.0) ∙ d.1 in
        let cut =
          append-cancel v.received body (s.pending t.conn ++ coming) (frames rest)
            (omega (arith, all, full)) (kept_ahead n before pending _ (some b, t) e v) in
        (
          rest,
          ap (λ l. l ∷ rest) (sym cut.0 ∙ sym d.0),
          (rw v.reads_on (inl (all, cut.1)), sized.2),
        )

    -- A message that was returned and is not yet released.
    whole-Decoded :
        (n : ℕ) (before pending : List ℕ) (bodies : List (List ℕ))
        (r : Option (List ℕ) × Transport s.Conn)
        → AreSized bodies
        → length before ≡ n
        → pending ++ coming ≡ frames bodies
        → Received s n before pending r
        → Decoded coming bodies r
    whole-Decoded n before pending bodies (none, t) sized all e v =
        let same =
          append-cancel v.received before (s.pending t.conn ++ coming) (frames bodies)
            (omega (arith, ap length v.goes_on, length-append before v.taken, v.within, all))
            (kept_ahead n before pending _ (none, t) (ap (λ l. before ++ l) e) v) in
        (bodies, refl, (rw v.reads_on (inl (omega (arith, ap length same.0, all), same.1)), sized))
    whole-Decoded n before pending bodies (some b, t) sized all e v = absurd (
        omega
          (arith, v.new b refl, ap length v.goes_on, length-append before v.taken, v.within, all))

    -- A header has been taken off.
    header-Decoded :
        (t : Transport s.Conn) (bodies : List (List ℕ)) (bytes : List ℕ)
        → AreSized bodies
        → length bytes ≡ 5
        → bytes ++ (s.pending t.conn ++ coming) ≡ frames bodies
        → Decoded coming bodies (header_read s (read_header bytes) t)
    unfolding header_read
    header-Decoded t [] bytes sized five e =
        absurd (omega (arith, ap length e, length-append bytes (s.pending t.conn ++ coming), five))
    header-Decoded t (body ∷ rest) bytes sized five e =
        let cut =
          append-cancel bytes (header_bytes (length body)) (s.pending t.conn ++ coming)
            (body ++ frames rest) (omega (arith, five, length-header_bytes (length body))) e in
        rw (cut.0, read_header-header_bytes (length body) sized.1)
          (partial-Decoded (length body) [] (s.pending t.conn) body rest
            (receive_data s (length body) [] t) sized sized.0 refl cut.1
            (receive_data-Received s (length body) [] t (omega arith)))

    -- Between messages.
    idle-Decoded :
        (t : Transport s.Conn) (bodies : List (List ℕ)) (r : Option (List ℕ) × s.Conn)
        → AreSized bodies
        → t.in_message ≡ idle
        → s.pending r.1 ++ coming ≡ frames bodies
        → ((bytes : List ℕ)
            → r.0 ≡ some bytes
            → length bytes ≡ 5
            → (s.recv false 5 r.1).0 ≡ some bytes)
        → Decoded coming bodies (header_seen s t r)
    unfolding header_seen
    idle-Decoded t bodies (none, c) sized is e again = (bodies, refl, (rw is e, sized))
    idle-Decoded t bodies (some bytes, c) sized is e again = elim (Bool-cases (length bytes == 5)) [
      | inr short ↦ rw short (bodies, refl, (rw is e, sized))
      | inl full ↦ rw full (
          header-Decoded (record t { conn = (s.recv false 5 c).1 }) bodies bytes sized
            (ground (arith, full))
            (sym (append_assoc bytes (s.pending (s.recv false 5 c).1) coming)
              ∙ ap (λ l. l ++ coming)
                  (sym (s.recv_some 5 c bytes (again bytes refl (ground (arith, full)))).1)
              ∙ e))
    ]

    receive-Decoded :
        (t : Transport s.Conn) (bodies : List (List ℕ)) (state : InMessage)
        → t.in_message ≡ state
        → IsAt state (s.pending t.conn ++ coming) bodies
        → AreSized bodies
        → Decoded coming bodies (transport_uds_message_receive s t)
    receive-Decoded t bodies idle is e sized = rw (receive-idle s t is) (
        idle-Decoded t bodies (s.recv true 5 t.conn) sized is
          (ap (λ l. l ++ coming) (peeked s t) ∙ e) (s.recv_seen 5 t.conn))
    receive-Decoded t bodies (reading n got) is (inl (all, e)) sized =
        whole-Decoded n got (s.pending t.conn) bodies (transport_uds_message_receive s t) sized all
          e (receive-Received s n got t is (omega (arith, all)))
    receive-Decoded t bodies (reading n got) is (inr (lt, (body, rest, head, full, e))) sized =
        subst (λ l. Decoded coming l (transport_uds_message_receive s t)) (sym head)
          (partial-Decoded n got (s.pending t.conn) body rest (transport_uds_message_receive s t)
            (subst AreSized head sized) lt full e
            (receive-Received s n got t is (omega (arith, lt))))

    pub readable-Decoded :
        (interrupted : Bool) (t : Transport s.Conn) (bodies : List (List ℕ))
        → IsDecoding t coming bodies
        → Decoded coming bodies (event_handled s readable interrupted t)
    unfolding event_handled event_manager_uds_wait_readable
    readable-Decoded true t bodies d = (bodies, refl, d)
    readable-Decoded false t bodies d =
        receive-Decoded (record t { wait_readable = t.wait_readable - 1 + 1 }) bodies t.in_message
          refl d.0 d.1
