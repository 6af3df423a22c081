-- ===== src/Uds/Tests.antt =====
-- A socket for the transport of src/uds/transport_uds.c: one that takes all it is given, or, when
-- it is broken, nothing.
use libkrossbar.Prelude.{
  ℕ, ◌≤◌, ◌≡◌, refl, Bool, true, false, Option, none, some, List, [], ◌∷◌, ◌++◌, arith, length,
  take, drop, take-append-drop, take-all, length-take, ap, sym,
}
use libkrossbar.Cqe.{value, failure}
use libkrossbar.Uds.SocketApi.{Socket, TakesHeaders}
use libkrossbar.Uds.{
  OutMessage, Transport, transport_uds_message_send, transport_uds_write_messages,
  event_manager_uds_handle_event, writeable, header_bytes, idle, reading,
  transport_uds_message_release, write_loop, headed_result, data_result, send_header, header_result,
}
use libkrossbar.Uds.Stream.{backlog, write_messages-stream}
use libkrossbar.Uds.Counts.{IsCounted}
use libkrossbar.Uds.Waiting.{answered}
use libkrossbar.Uds.Stalled.{
  hands_over, releases, stop, and_then, IsStalled, failed-IsStalled, Steps-IsStalled,
}

-- The bytes sent, and those to be received.
abbrev pub Ends : Type 0
Ends = List ℕ × List ℕ

abbrev pub end_recv : Bool → ℕ → Ends → Option (List ℕ) × Ends
end_recv true k c = (some (take k c.1), c)
end_recv false k c = (some (take k c.1), (c.0, drop k c.1))

pub the_taken : (A : Type 0) (a b : A) → some a ≡ some b → a ≡ b
the_taken A a b e = ap (λ o. elim o [ some x ↦ x | none ↦ a ]) e

pub distinct : {A : Type 0} (B : Type 0) (a : A) → some a ≡ none → B
distinct B a e = absurd (cc)

pub taken_all :
    (bytes : List ℕ) (n : ℕ) (l : List ℕ)
    → some (length bytes) ≡ some n
    → (n ≤ length bytes) × (l ++ bytes ≡ l ++ take n bytes)
taken_all bytes n l e =
    let same = the_taken _ (length bytes) n e in
    (omega (arith, same), ap (λ r. l ++ r) (sym (take-all n bytes (omega (arith, same)))))

pub recv_error :
    (peek : Bool) (k : ℕ) (c : Ends) → (end_recv peek k c).0 ≡ none → (end_recv peek k c).1.1 ≡ c.1
recv_error true k c e = refl
recv_error false k c e = absurd (cc)

pub recv_some :
    (k : ℕ) (c : Ends) (bytes : List ℕ)
    → some (take k c.1) ≡ some bytes
    → (length bytes ≤ k) × (c.1 ≡ bytes ++ drop k c.1)
recv_some k c bytes e =
    let same = the_taken _ (take k c.1) bytes e in
    (omega (arith, ap length same, length-take k c.1), rw⁻¹ same (sym (take-append-drop k c.1)))

pub recv_sent : (peek : Bool) (k : ℕ) (c : Ends) → (end_recv peek k c).1.0 ≡ c.0
recv_sent true k c = refl
recv_sent false k c = refl

abbrev pub pipe : Socket
pipe = record {
  Conn = Ends;
  sent = λ c. c.0;
  pending = λ c. c.1;
  send = λ bytes c. (some (length bytes), (c.0 ++ bytes, c.1));
  recv = end_recv;
  send_error = λ bytes c e. distinct _ (length bytes) e;
  send_some = λ bytes c n e. taken_all bytes n c.0 e;
  recv_error = recv_error;
  recv_peek = λ k c bytes e. (refl, sym (the_taken _ (take k c.1) bytes e));
  recv_some = recv_some;
  recv_sent = recv_sent;
  send_pending = λ bytes c. refl;
  recv_seen = λ k c bytes e l. e;
}

abbrev broken_pipe : Socket
broken_pipe = record {
  Conn = Ends;
  sent = λ c. c.0;
  pending = λ c. c.1;
  send = λ bytes c. (none, c);
  recv = end_recv;
  send_error = λ bytes c e. refl;
  send_some = λ bytes c n e. distinct _ n (sym e);
  recv_error = recv_error;
  recv_peek = λ k c bytes e. (refl, sym (the_taken _ (take k c.1) bytes e));
  recv_some = recv_some;
  recv_sent = recv_sent;
  send_pending = λ bytes c. refl;
  recv_seen = λ k c bytes e l. e;
}

pub pipe-TakesHeaders : TakesHeaders pipe
pipe-TakesHeaders bytes c n e h = sym (the_taken _ (length bytes) n e)

-- A message of two bytes is queued.
abbrev pub greeting : OutMessage
greeting = record { data_at = 5000; bytes = 72 ∷ 105 ∷ []; header_sent = false }

abbrev pub busy : Transport Ends
busy = record {
  conn = ([], []);
  max_message_size = 100;
  out_messages = greeting ∷ [];
  out_message_count = 1;
  max_buffered_messages = 10;
  in_message = idle;
  wait_readable = 1;
  wait_writeable = 1;
  freed = [];
}

busy-IsCounted : IsCounted busy
busy-IsCounted = record { counted = refl; bounded = omega arith }

write_messages-stream_example :
    let t' = (transport_uds_write_messages pipe busy).1 in
    pipe.sent t'.conn ++ backlog t'.out_messages ≡ backlog (greeting ∷ [])
write_messages-stream_example = write_messages-stream pipe pipe-TakesHeaders busy

writes_none : (transport_uds_write_messages broken_pipe (answered broken_pipe busy)).0 ≡ none
unfolding transport_uds_write_messages write_loop headed_result data_result send_header
    header_result
writes_none = refl

failed-IsStalled_example :
    IsStalled (event_manager_uds_handle_event broken_pipe writeable (value 1) busy).1
failed-IsStalled_example =
    failed-IsStalled broken_pipe (failure 11) busy refl busy-IsCounted refl writes_none

-- A transport of which a send has failed.
abbrev stalled : Transport Ends
stalled = record busy { wait_writeable = 0 }

stalled-IsStalled : IsStalled stalled
stalled-IsStalled = record {
  counted = record { counted = refl; bounded = omega arith };
  queued = omega arith;
  unawaited = refl;
}

abbrev after_all : Transport Ends
after_all =
    transport_uds_message_release broken_pipe
      (transport_uds_message_send broken_pipe 6000 (1 ∷ []) stalled)

Steps-IsStalled_example : IsStalled after_all × (broken_pipe.sent after_all.conn ≡ [])
Steps-IsStalled_example =
    Steps-IsStalled broken_pipe
      (and_then (hands_over {t = stalled} 6000 (1 ∷ []) (omega arith)) (and_then releases stop))
      stalled-IsStalled

-- Three bytes of a message, of which one is there, and a byte behind it.
abbrev halfway : Transport Ends
halfway = record busy { conn = ([], 2 ∷ 3 ∷ 4 ∷ []); in_message = reading 3 (1 ∷ []) }

-- A message of one byte waits.
abbrev arrived : Transport Ends
arrived = record busy { conn = ([], header_bytes 1 ++ (9 ∷ [])) }
