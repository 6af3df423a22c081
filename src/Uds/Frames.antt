-- ===== src/Uds/Frames.antt =====
-- What `transport_uds_message_receive` makes of the bytes that wait (src/uds/transport_uds.c).
use libkrossbar.Prelude.{
  ℕ, ◌-◌, ◌≤◌, ◌<◌, ◌^◌, ◌≡◌, ◌⊎◌, inl, inr, refl, sym, ap, ◌∙◌, subst, Bool, true, false, Option,
  none, some, List, [], ◌++◌, arith, length, take, drop, length-append, append_assoc, append-nil,
  ltb, lt→ltb, ◌==◌, ◌&&◌, if◌then◌else◌, Bool-cases, Option-cases,
}
use libkrossbar.Uds.SocketApi.{Socket}
use libkrossbar.Uds.Header.{read_header-header_bytes}
use libkrossbar.Uds.{
  Transport, idle, reading, header_bytes, read_header, data_received, receive_data, header_read,
  header_seen, transport_uds_message_receive,
}

-- A receive of a message of `n` bytes has gone on from the bytes `before`, with `ahead` still to come:
-- none is lost or taken twice, none behind the message is taken, and what it returns is the message.
pub record Received (s : Socket) (n : ℕ) (before ahead : List ℕ)
    (r : Option (List ℕ) × Transport s.Conn) : Type 0 where
  pub received : List ℕ
  pub reads_on : r.1.in_message ≡ reading n received
  pub within : length received ≤ n
  pub kept : received ++ s.pending r.1.conn ≡ before ++ ahead
  pub delivered : (body : List ℕ) → r.0 ≡ some body → (body ≡ received) × (length body ≡ n)
  -- it takes bytes off when it returns the message, and returns it when it takes the last ones off
  pub taken : List ℕ
  pub goes_on : received ≡ before ++ taken
  pub new : (body : List ℕ) → r.0 ≡ some body → 0 < length taken
  pub partial : r.0 ≡ none → 0 < length taken → length received < n

module _ (s : Socket) where
  full_message :
      (new : Bool) (n : ℕ) (l body : List ℕ)
      → (if new && (length l == n) then some l else none) ≡ some body
      → (body ≡ l) × (length body ≡ n)
  full_message true n l body e = elim (Bool-cases (length l == n)) [
    | inl full ↦
        let same : some l ≡ some body =
          subst (λ b. (if b then some l else none) ≡ some body) full e in
        let same' = ap (λ o. elim o [ some x ↦ x | none ↦ l ]) same in
        (sym same', ground (arith, ap length same'))
    | inr part ↦ absurd (cc)
  ]
  full_message false n l body e = absurd (cc)

  some_new :
      (k : ℕ) (full : Bool) (l body : List ℕ)
      → (if ltb 0 k && full then some l else none) ≡ some body
      → 0 < k
  some_new k full l body e = elim (Bool-cases (ltb 0 k)) [
    | inl pos ↦ ground arith
    | inr none_new ↦
        absurd (nothing (subst (λ b. (if b && full then some l else none) ≡ some body) none_new e))
  ]
    where
      nothing : none ≡ some body → ⊥
      nothing e = cc

  whole_returned :
      (k n : ℕ) (l : List ℕ)
      → length l ≤ n
      → (if ltb 0 k && (length l == n) then some l else none) ≡ none
      → 0 < k
      → length l < n
  whole_returned k n l le e pos = elim (Bool-cases (length l == n)) [
    | inr part ↦ ground (arith, part, le)
    | inl full ↦ absurd (returned (rw (lt→ltb 0 k pos, full) at e))
  ]
    where
      returned : some l ≡ none → ⊥
      returned e = cc

  data_received-Received :
      (n : ℕ) (before : List ℕ) (t : Transport s.Conn) (r : Option (List ℕ) × s.Conn)
      → length before ≤ n
      → (r.0 ≡ none → s.pending r.1 ≡ s.pending t.conn)
      → ((bytes : List ℕ)
          → r.0 ≡ some bytes
          → (length bytes ≤ n - length before) × (s.pending t.conn ≡ bytes ++ s.pending r.1))
      → Received s n before (s.pending t.conn) (data_received s n before t r)
  unfolding data_received
  data_received-Received n before t (none, c) le error took = record {
    received = before;
    reads_on = refl;
    within = le;
    kept = ap (λ l. before ++ l) (error refl);
    delivered = λ body e. absurd (cc);
    taken = [];
    goes_on = sym (append-nil before);
    new = λ body e. absurd (cc);
    partial = λ e lt. absurd (omega (arith, lt));
  }
  data_received-Received n before t (some bytes, c) le error took = record {
    received = before ++ bytes;
    reads_on = refl;
    within = omega (arith, le, (took bytes refl).0, length-append before bytes);
    kept =
        append_assoc before bytes (s.pending c) ∙ ap (λ l. before ++ l) (sym (took bytes refl).1);
    delivered = full_message (ltb 0 (length bytes)) n (before ++ bytes);
    taken = bytes;
    goes_on = refl;
    new = some_new (length bytes) (length (before ++ bytes) == n) (before ++ bytes);
    partial =
        whole_returned (length bytes) n (before ++ bytes)
          (omega (arith, le, (took bytes refl).0, length-append before bytes));
  }

  pub receive_data-Received :
      (n : ℕ) (before : List ℕ) (t : Transport s.Conn)
      → length before ≤ n
      → Received s n before (s.pending t.conn) (receive_data s n before t)
  unfolding receive_data
  receive_data-Received n before t le =
      data_received-Received n before t (s.recv false (n - length before) t.conn) le
        (s.recv_error false (n - length before) t.conn) (s.recv_some (n - length before) t.conn)

  -- While a message of `n` bytes is read, of which the first, `before`, are there: a receive takes
  -- bytes off the socket only up to the message's end, in order, losing none; what it returns, if
  -- anything, is the `n` bytes of the message.
  pub receive-Received :
      (n : ℕ) (before : List ℕ) (t : Transport s.Conn)
      → t.in_message ≡ reading n before
      → length before ≤ n
      → Received s n before (s.pending t.conn) (transport_uds_message_receive s t)
  unfolding transport_uds_message_receive receive_data data_received
  receive-Received n before t is le = rw is (receive_data-Received n before t le)

  take_header : (n : ℕ) (more : List ℕ) → take 5 (header_bytes n ++ more) ≡ header_bytes n
  unfolding header_bytes
  take_header n more = refl

  behind_header :
      (n : ℕ) (more rest : List ℕ) → header_bytes n ++ more ≡ header_bytes n ++ rest → more ≡ rest
  unfolding header_bytes
  behind_header n more rest e = ap (drop 5) e

  header_read-Received :
      (n : ℕ) (more : List ℕ) (t : Transport s.Conn)
      → n < 2 ^ 32
      → s.pending t.conn ≡ more
      → Received s n [] more (header_read s (read_header (header_bytes n)) t)
  unfolding header_read
  header_read-Received n more t small e = rw (read_header-header_bytes n small) (
      subst (λ l. Received s n [] l (receive_data s n [] t)) e
        (receive_data-Received n [] t (omega arith)))

  header_seen-Received :
      (n : ℕ) (more : List ℕ) (t : Transport s.Conn) (r : Option (List ℕ) × s.Conn)
      → n < 2 ^ 32
      → s.pending r.1 ≡ header_bytes n ++ more
      → ((bytes : List ℕ) → r.0 ≡ some bytes → bytes ≡ take 5 (header_bytes n ++ more))
      → ((bytes : List ℕ)
          → r.0 ≡ some bytes
          → length bytes ≡ 5
          → (s.recv false 5 r.1).0 ≡ some bytes)
      → t.in_message ≡ idle
      → let r' = header_seen s t r in
        ((r'.0 ≡ none) × (r'.1.in_message ≡ idle) × (s.pending r'.1.conn ≡ header_bytes n ++ more))
        ⊎ Received s n [] more r'
  unfolding header_seen
  header_seen-Received n more t (none, c) small e looked again is = inl (refl, is, e)
  header_seen-Received n more t (some bytes, c) small e looked again is =
      elim (Bool-cases (length bytes == 5)) [
        | inl full ↦
            let head : bytes ≡ header_bytes n = looked bytes refl ∙ take_header n more in
            let gone = (s.recv_some 5 c bytes (again bytes refl (ground (arith, full)))).1 in
            let rest : s.pending (s.recv false 5 c).1 ≡ more = sym (
              behind_header n more _
                (sym e ∙ gone ∙ ap (λ l. l ++ s.pending (s.recv false 5 c).1) head)) in
            inr (
              rw full (
                rw head (
                  header_read-Received n more (record t { conn = (s.recv false 5 c).1 }) small
                    rest)))
        | inr short ↦ inl (rw short (refl, is, e))
      ]

  pub receive-idle :
      (t : Transport s.Conn)
      → t.in_message ≡ idle
      → transport_uds_message_receive s t ≡ header_seen s t (s.recv true 5 t.conn)
  unfolding transport_uds_message_receive
  receive-idle t is =
      ap
        (λ i. elim i [
          | idle ↦ header_seen s t (s.recv true 5 t.conn)
          | reading n before ↦ receive_data s n before t
        ])
        is

  pub peeked : (t : Transport s.Conn) → s.pending (s.recv true 5 t.conn).1 ≡ s.pending t.conn
  peeked t = elim (Option-cases (s.recv true 5 t.conn).0) [
    | inl failed ↦ s.recv_error true 5 t.conn failed
    | inr (bytes, took) ↦ (s.recv_peek 5 t.conn bytes took).0
  ]

  -- Between messages, with the header of a message of fewer than 2^32 bytes at the front of the
  -- bytes that wait: a receive returns nothing and takes nothing, or it takes the header off and
  -- goes on from there with the bytes of a message of that length, of which it takes none beyond
  -- the end and loses none; what it returns then, if anything, is that message.
  receive-header_bytes :
      (n : ℕ) (more : List ℕ) (t : Transport s.Conn)
      → t.in_message ≡ idle
      → n < 2 ^ 32
      → s.pending t.conn ≡ header_bytes n ++ more
      → let r' = transport_uds_message_receive s t in
        ((r'.0 ≡ none) × (r'.1.in_message ≡ idle) × (s.pending r'.1.conn ≡ header_bytes n ++ more))
        ⊎ Received s n [] more r'
  receive-header_bytes n more t is small e =
      subst
        (λ r'.
          ((r'.0 ≡ none)
            × (r'.1.in_message ≡ idle)
            × (s.pending r'.1.conn ≡ header_bytes n ++ more))
          ⊎ Received s n [] more r')
        (sym (receive-idle t is))
        (header_seen-Received n more t (s.recv true 5 t.conn) small (peeked t ∙ e)
          (λ bytes took. (s.recv_peek 5 t.conn bytes took).1 ∙ ap (take 5) e) (s.recv_seen 5 t.conn)
          is)
