-- ===== src/Uds/Waiting.antt =====
-- Who waits for the socket (src/uds/transport_uds.c, src/uds/event_manager_uds.c): as long as
-- nothing fails, queued messages have a request for a writeable event; after a failed send they
-- have none, and nothing asks for one again.
use libkrossbar.Prelude.{
  ℕ, ◌+◌, ◌-◌, ◌<◌, ◌^◌, ◌≡◌, refl, ◌∙◌, Bool, true, false, Option, none, some, List, [], arith,
  length, Bool-cases, inl, inr, ◌==◌,
}
use libkrossbar.Uds.SocketApi.{Socket}
use libkrossbar.Uds.{
  Transport, InMessage, idle, reading, readable, transport_uds_message_send,
  transport_uds_message_receive, event_handled, event_manager_uds_wait_readable, receive_data,
  data_received, header_read, header_seen, read_header,
}
use libkrossbar.Uds.Counts.{IsCounted, message_send-IsCounted}

-- What a receive may change: the connection, by what it takes off, and the incoming message.
pub record SameOut (s : Socket) (t u : Transport s.Conn) : Type 0 where
  pub sent : s.sent u.conn ≡ s.sent t.conn
  pub queue : u.out_messages ≡ t.out_messages
  pub count : u.out_message_count ≡ t.out_message_count
  pub waits : u.wait_writeable ≡ t.wait_writeable
  pub freed : u.freed ≡ t.freed

module _ (s : Socket) where
  data_received-SameOut :
      (n : ℕ) (received : List ℕ) (t : Transport s.Conn) (r : Option (List ℕ) × s.Conn)
      → s.sent r.1 ≡ s.sent t.conn
      → SameOut s t (data_received s n received t r).1
  unfolding data_received
  data_received-SameOut n received t (none, c) e = record {
    sent = e;
    queue = refl;
    count = refl;
    waits = refl;
    freed = refl;
  }
  data_received-SameOut n received t (some bytes, c) e = record {
    sent = e;
    queue = refl;
    count = refl;
    waits = refl;
    freed = refl;
  }

  receive_data-SameOut :
      (n : ℕ) (received : List ℕ) (t : Transport s.Conn)
      → SameOut s t (receive_data s n received t).1
  unfolding receive_data
  receive_data-SameOut n received t =
      data_received-SameOut n received t _ (s.recv_sent false (n - length received) t.conn)

  header_read-SameOut :
      (h : Option (ℕ × ℕ)) (t : Transport s.Conn) → SameOut s t (header_read s h t).1
  unfolding header_read
  header_read-SameOut none t = record {
    sent = refl;
    queue = refl;
    count = refl;
    waits = refl;
    freed = refl;
  }
  header_read-SameOut (some (m, len)) t = elim (Bool-cases (m == 0x42)) [
    | inl good ↦ rw good (receive_data-SameOut len [] t)
    | inr bad ↦
        rw bad (record { sent = refl; queue = refl; count = refl; waits = refl; freed = refl })
  ]

  header_seen-SameOut :
      (t : Transport s.Conn) (r : Option (List ℕ) × s.Conn)
      → s.sent r.1 ≡ s.sent t.conn
      → SameOut s t (header_seen s t r).1
  unfolding header_seen
  header_seen-SameOut t (none, c) e = record {
    sent = e;
    queue = refl;
    count = refl;
    waits = refl;
    freed = refl;
  }
  header_seen-SameOut t (some bytes, c) e = elim (Bool-cases (length bytes == 5)) [
    | inl full ↦ rw full (
        let same =
          header_read-SameOut (read_header bytes) (record t { conn = (s.recv false 5 c).1 }) in
        record {
          sent = same.sent ∙ s.recv_sent false 5 c ∙ e;
          queue = same.queue;
          count = same.count;
          waits = same.waits;
          freed = same.freed;
        })
    | inr short ↦
        rw short (record { sent = e; queue = refl; count = refl; waits = refl; freed = refl })
  ]

  pub receive-SameOut : (t : Transport s.Conn) → SameOut s t (transport_uds_message_receive s t).1
  unfolding transport_uds_message_receive
  receive-SameOut t = elim t.in_message as (λ i. SameOut s t (taken_in i).1) [
    | idle ↦ header_seen-SameOut t _ (s.recv_sent true 5 t.conn)
    | reading n received ↦ receive_data-SameOut n received t
  ]
    where
      taken_in : InMessage → Option (List ℕ) × Transport s.Conn
      taken_in i = elim i [
        | idle ↦ header_seen s t (s.recv true 5 t.conn)
        | reading n received ↦ receive_data s n received t
      ]

  -- A readable event, interrupted or not, changes nothing about what goes out.
  pub readable-SameOut :
      (interrupted : Bool) (t : Transport s.Conn)
      → SameOut s t (event_handled s readable interrupted t).1
  unfolding event_handled event_manager_uds_wait_readable
  readable-SameOut true t = record {
    sent = refl;
    queue = refl;
    count = refl;
    waits = refl;
    freed = refl;
  }
  readable-SameOut false t =
      let same = receive-SameOut (record t { wait_readable = t.wait_readable - 1 + 1 }) in
      record {
        sent = same.sent;
        queue = same.queue;
        count = same.count;
        waits = same.waits;
        freed = same.freed;
      }

-- The queue is counted, and someone waits for the socket whenever messages are queued.
pub record IsAwaited {Conn : Type 0} (t : Transport Conn) : Type 0 where
  pub counted : IsCounted t
  pub awaited : 0 < t.out_message_count → 0 < t.wait_writeable

module _ (s : Socket) where
  -- When the count is the number of queued messages and a request for a writeable event stands
  -- whenever there are some, both hold after `transport_uds_message_send`, as long as the count
  -- does not overflow.
  message_send-IsAwaited :
      (p : ℕ) (bytes : List ℕ) (t : Transport s.Conn)
      → IsAwaited t
      → t.out_message_count + 2 < 2 ^ 64
      → IsAwaited (transport_uds_message_send s p bytes t)
  message_send-IsAwaited p bytes t v b = record {
    counted = message_send-IsCounted s p bytes t v.counted b;
    awaited = unfold transport_uds_message_send in λ h. ground (arith, v.awaited);
  }

  abbrev pub answered : Transport s.Conn → Transport s.Conn
  answered t = record t { wait_writeable = t.wait_writeable - 1 }
