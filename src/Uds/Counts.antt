-- ===== src/Uds/Counts.antt =====
-- The count of queued messages (src/uds/transport_uds.c).
use libkrossbar.Prelude.{
  ℕ, suc, ◌+◌, ◌≤◌, ◌<◌, ◌^◌, ◌≡◌, false, Option, none, some, List, [], ◌∷◌, ◌++◌, arith, length,
  length-append, Bool-cases, inl, inr, ltb, ◌∙◌,
}
use libkrossbar.Memory.{sub_size}
use libkrossbar.Uds.SocketApi.{Socket}
use libkrossbar.Uds.{
  OutMessage, Transport, Written, stopped, send_header, data_result, headed_result, write_loop,
  transport_uds_write_messages, transport_uds_message_send,
}

-- `out_message_count` is the number of queued messages.
pub record IsCounted {Conn : Type 0} (t : Transport Conn) : Type 0 where
  pub counted : t.out_message_count ≡ length t.out_messages
  pub bounded : t.out_message_count + 1 < 2 ^ 64

-- What a run of the loop over `limit` messages returns: -1 with messages left, or the number of
-- messages left.
pub record IsAccounted {Conn : Type 0} (limit : ℕ) (w : Written Conn) : Type 0 where
  pub counted : w.count ≡ length w.left
  pub failed : w.result ≡ none → 0 < w.count
  pub returned : (n : ℕ) → w.result ≡ some n → n ≡ w.count
  pub fewer : w.count ≤ limit

IsAccounted-mono :
    {Conn : Type 0} {w : Written Conn} (k l : ℕ) → k ≤ l → IsAccounted k w → IsAccounted l w
IsAccounted-mono k l h acc = record {
  counted = acc.counted;
  failed = acc.failed;
  returned = acc.returned;
  fewer = omega (arith, acc.fewer);
}

module _ (s : Socket) where
  stopped-IsAccounted :
      (result : Option ℕ) (c : s.Conn) (msg : OutMessage) (rest : List OutMessage) (count : ℕ)
      (freed : List ℕ)
      → count ≡ suc (length rest)
      → ((n : ℕ) → result ≡ some n → n ≡ count)
      → IsAccounted count (stopped s result c msg rest count freed)
  stopped-IsAccounted result c msg rest count freed h r = record {
    counted = h;
    failed = λ _. omega arith;
    returned = r;
    fewer = omega arith;
  }

  module _ (rest : List OutMessage) (count : ℕ) (freed : List ℕ)
      (later : ℕ → List ℕ → s.Conn → Written s.Conn) (h : count ≡ suc (length rest))
      (b : count < 2 ^ 64)
      (ih : (k : ℕ) (l : List ℕ) (c : s.Conn) → k ≡ length rest → IsAccounted k (later k l c)) where
    data_result-IsAccounted :
        (msg : OutMessage) (r : Option ℕ × s.Conn)
        → IsAccounted count (data_result s msg rest count freed later r)
    unfolding data_result
    data_result-IsAccounted msg (none, c) =
        stopped-IsAccounted none c msg rest count freed h λ n e. absurd (cc)
    data_result-IsAccounted msg (some n, c) = elim (Bool-cases (ltb n (length msg.bytes))) [
      | inl part ↦
          rw part (stopped-IsAccounted (some count) c _ rest count freed h λ k e. ground arith)
      | inr all ↦ rw all (
          IsAccounted-mono (sub_size count 1) count (omega arith)
            (ih (sub_size count 1) (freed ++ (msg.data_at ∷ [])) c (omega arith)))
    ]

    headed_result-IsAccounted :
        (msg : OutMessage) (r : Option OutMessage × s.Conn)
        → IsAccounted count (headed_result s msg rest count freed later r)
    unfolding headed_result
    headed_result-IsAccounted msg (none, c) =
        stopped-IsAccounted none c msg rest count freed h λ n e. absurd (cc)
    headed_result-IsAccounted msg (some msg', c) =
        data_result-IsAccounted msg' (s.send msg'.bytes c)

  write_loop-IsAccounted :
      (msgs : List OutMessage) (count : ℕ) (freed : List ℕ) (c : s.Conn)
      → count < 2 ^ 64
      → count ≡ length msgs
      → IsAccounted count (write_loop s msgs count freed c)
  unfolding write_loop
  write_loop-IsAccounted [] count freed c b h = record {
    counted = h;
    failed = λ e. absurd (cc);
    returned = λ n e. ground arith;
    fewer = omega arith;
  }
  write_loop-IsAccounted (msg ∷ rest) count freed c b h =
      headed_result-IsAccounted rest count freed (write_loop s rest) h b
        (λ k l c' e. write_loop-IsAccounted rest k l c' (omega arith) e) msg (send_header s msg c)

  pub write_messages-IsCounted :
      (t : Transport s.Conn)
      → IsCounted t
      → let (result, t') = transport_uds_write_messages s t in
        IsCounted t'
        × (result ≡ none → 0 < length t'.out_messages)
        × ((n : ℕ) → result ≡ some n → n ≡ length t'.out_messages)
  unfolding transport_uds_write_messages
  write_messages-IsCounted t v =
      let w = write_loop s t.out_messages t.out_message_count t.freed t.conn in
      let acc =
        write_loop-IsAccounted t.out_messages t.out_message_count t.freed t.conn
          (omega (arith, v.bounded)) v.counted in
      (
        record { counted = acc.counted; bounded = omega (arith, v.bounded, acc.fewer) },
        λ e. omega (arith, acc.failed e, acc.counted),
        λ n e. acc.returned n e ∙ acc.counted,
      )

  pub message_send-IsCounted :
      (p : ℕ) (bytes : List ℕ) (t : Transport s.Conn)
      → IsCounted t
      → t.out_message_count + 2 < 2 ^ 64
      → IsCounted (transport_uds_message_send s p bytes t)
  unfolding transport_uds_message_send
  message_send-IsCounted p bytes t v b = record {
    counted = omega (
      arith,
      v.counted,
      length-append t.out_messages
          (record { data_at = p; bytes = bytes; header_sent = false } ∷ []),
    );
    bounded = omega (arith, v.bounded);
  }
