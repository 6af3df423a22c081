-- ===== src/Uds.antt =====
-- The transport over a Unix domain socket: src/uds/transport_uds.c with its event manager
-- src/uds/event_manager_uds.c. The list of outgoing messages, linked by the macros of utlist, is
-- the sequence of its elements. A request for an event that `io_uring` holds is counted.
pub mod SocketApi
pub mod Header
pub mod Stream
pub mod Counts
pub mod Frames
pub mod Waiting
pub mod Stalled
pub mod Sending
pub mod Decoding
pub mod Delivery
mod RunTests
pub mod Tests
use libkrossbar.Prelude.{
  ℕ, zero, suc, ◌+◌, ◌-◌, ◌*◌, ◌/◌, ◌%◌, ◌^◌, Bool, true, false, not, Option, none, some, List, [],
  ◌∷◌, ◌++◌, ltb, leb, ◌==◌, if◌then◌else◌, length, drop, ◌&&◌, map,
}
use libkrossbar.Memory.{sub_size, add_size}
use libkrossbar.Uds.SocketApi.{Socket}
use libkrossbar.Cqe.{CqeResult, is_interrupted}

abbrev pub magic : ℕ
magic = 0x42

-- `message_header_t`, packed: the magic byte and the length's four bytes, lowest first.
pub header_bytes : ℕ → List ℕ
header_bytes len =
    magic ∷ (len % 256) ∷ (len / 256 % 256) ∷ (len / 65536 % 256) ∷ (len / 16777216 % 256) ∷ []

abbrev pub header_length : ℕ
header_length = 5

-- The fields `magic` and `data_len` of the bytes that a header was read into.
pub read_header : List ℕ → Option (ℕ × ℕ)
read_header (m ∷ a ∷ b ∷ c ∷ d ∷ []) = some (m, a + 256 * b + 65536 * c + 16777216 * d)
read_header _ = none

-- `message_buffer_t` of a message that goes out: `data` is the pointer, `bytes` the `data_size`
-- bytes that stand there.
pub record OutMessage : Type 0 where
  pub data_at : ℕ
  pub bytes : List ℕ
  pub header_sent : Bool

-- `message_buffer_t` of the message that comes in; `idle` is its `data == NULL`. The bytes received
-- so far are the first `current_offset` of the `data_size`.
pub data InMessage : Type 0 where
  idle : InMessage
  reading : (data_size : ℕ) (received : List ℕ) → InMessage

-- `kb_transport_uds_t`, the requests that its event manager has in the ring, and the pointers to
-- outgoing data that it has handed to `free`.
pub record Transport (Conn : Type 0) : Type 0 where
  pub conn : Conn
  pub max_message_size : ℕ
  pub out_messages : List OutMessage
  pub out_message_count : ℕ
  pub max_buffered_messages : ℕ
  pub in_message : InMessage
  pub wait_readable : ℕ
  pub wait_writeable : ℕ
  pub freed : List ℕ

pub data EventType : Type 0 where
  readable writeable : EventType

module _ (s : Socket) where
  -- A new transport, when there is memory for it and for its event manager, which asks for the first
  -- readable event.
  pub transport_uds_init :
      (allocated manager_allocated : Bool)
      → s.Conn
      → (max_message max_buffered : ℕ) → Option (Transport s.Conn)
  transport_uds_init allocated manager_allocated c max_message max_buffered =
      if allocated && manager_allocated
      then some (record {
        conn = c;
        max_message_size = max_message;
        out_messages = [];
        out_message_count = 0;
        max_buffered_messages = max_buffered;
        in_message = idle;
        wait_readable = 1;
        wait_writeable = 0;
        freed = [];
      })
      else none

  -- The buffer of a new message; `buffer` is what `malloc` returns, 0 for `NULL`.
  pub transport_uds_message_init : (buffer : ℕ) → Transport s.Conn → Option ℕ
  transport_uds_message_init buffer t =
      if leb t.max_buffered_messages t.out_message_count
      then none
      else (if buffer == 0 then none else some buffer)

  -- `data` is what `realloc` returns for the message's bytes.
  pub transport_uds_message_send : (data_at : ℕ) → List ℕ → Transport s.Conn → Transport s.Conn
  transport_uds_message_send data_at bytes t = record t {
    out_messages =
        t.out_messages ++ (record { data_at = data_at; bytes = bytes; header_sent = false } ∷ []);
    wait_writeable = if t.out_message_count == 0 then t.wait_writeable + 1 else t.wait_writeable;
    out_message_count = add_size t.out_message_count 1;
  }

-- What `transport_uds_write_messages` leaves: its result (`none` for -1), the connection, the
-- messages that are left with their count, and the pointers freed.
pub record Written (Conn : Type 0) : Type 0 where
  pub result : Option ℕ
  pub conn : Conn
  pub left : List OutMessage
  pub count : ℕ
  pub freed : List ℕ

module _ (s : Socket) where
  -- The header of a message goes out before its data, once; a short count is not looked at.
  pub header_result : OutMessage → Option ℕ × s.Conn → Option OutMessage × s.Conn
  header_result msg (none, c) = (none, c)
  header_result msg (some _, c) = (some (record msg { header_sent = true }), c)

  pub send_header : OutMessage → s.Conn → Option OutMessage × s.Conn
  send_header msg c =
      if msg.header_sent
      then (some msg, c)
      else header_result msg (s.send (header_bytes (length msg.bytes)) c)

  -- The loop stops: a message stays at the head of the queue.
  abbrev pub stopped :
      (result : Option ℕ)
      → s.Conn
      → OutMessage
      → List OutMessage
      → (count : ℕ) → List ℕ
      → Written s.Conn
  stopped result c msg rest count freed = record {
    result = result;
    conn = c;
    left = msg ∷ rest;
    count = count;
    freed = freed;
  }

  -- What the loop makes of the result of sending a message's data; `later` goes on with the rest.
  pub data_result :
      OutMessage
      → List OutMessage
      → (count : ℕ) → (freed : List ℕ) → (later : ℕ → List ℕ → s.Conn → Written s.Conn)
      → Option ℕ × s.Conn
      → Written s.Conn
  data_result msg rest count freed later (none, c) = stopped none c msg rest count freed
  data_result msg rest count freed later (some n, c) =
      if ltb n (length msg.bytes)
      then stopped (some count) c
          (record msg { data_at = msg.data_at + n; bytes = drop n msg.bytes }) rest count freed
      else later (sub_size count 1) (freed ++ (msg.data_at ∷ [])) c

  -- The same, from the result of sending its header on.
  pub headed_result :
      OutMessage
      → List OutMessage
      → (count : ℕ) → (freed : List ℕ) → (later : ℕ → List ℕ → s.Conn → Written s.Conn)
      → Option OutMessage × s.Conn
      → Written s.Conn
  headed_result msg rest count freed later (none, c) = stopped none c msg rest count freed
  headed_result msg rest count freed later (some msg', c) =
      data_result msg' rest count freed later (s.send msg'.bytes c)

  -- The loop over the queue, one message a round.
  pub write_loop : List OutMessage → (count : ℕ) → (freed : List ℕ) → s.Conn → Written s.Conn
  write_loop [] count freed c = record {
    result = some count;
    conn = c;
    left = [];
    count = count;
    freed = freed;
  }
  write_loop (msg ∷ rest) count freed c =
      headed_result msg rest count freed (write_loop rest) (send_header msg c)

  pub transport_uds_write_messages : Transport s.Conn → Option ℕ × Transport s.Conn
  transport_uds_write_messages t =
      let w = write_loop t.out_messages t.out_message_count t.freed t.conn in
      (
        w.result,
        record t {
          conn = w.conn;
          out_messages = w.left;
          out_message_count = w.count;
          freed = w.freed;
        },
      )

  -- The last part of `transport_uds_message_receive`, with a buffer that `malloc` has given, from the result of
  -- its `recv` on.
  pub data_received :
      (data_size : ℕ) (received : List ℕ)
      → Transport s.Conn
      → Option (List ℕ) × s.Conn
      → Option (List ℕ) × Transport s.Conn
  data_received data_size received t (none, c) =
      (none, record t { conn = c; in_message = reading data_size received })
  data_received data_size received t (some bytes, c) = (
    (if ltb 0 (length bytes) && (length (received ++ bytes) == data_size)
        then some (received ++ bytes)
        else none),
    record t { conn = c; in_message = reading data_size (received ++ bytes) },
  )

  pub receive_data :
      (data_size : ℕ) (received : List ℕ) → Transport s.Conn → Option (List ℕ) × Transport s.Conn
  receive_data data_size received t =
      data_received data_size received t (s.recv false (data_size - length received) t.conn)

  -- The header that was taken off the socket.
  pub header_read : Option (ℕ × ℕ) → Transport s.Conn → Option (List ℕ) × Transport s.Conn
  header_read none t = (none, t)
  header_read (some (m, len)) t = if m == magic then receive_data len [] t else (none, t)

  -- A new message: its header is looked at, and taken off the socket when it is there whole. The
  -- second `recv` reads the same bytes into the same variable.
  pub header_seen : Transport s.Conn → Option (List ℕ) × s.Conn → Option (List ℕ) × Transport s.Conn
  header_seen t (none, c) = (none, record t { conn = c })
  header_seen t (some bytes, c) =
      if length bytes == header_length
      then header_read (read_header bytes) (record t { conn = (s.recv false header_length c).1 })
      else (none, record t { conn = c })

  pub transport_uds_message_receive : Transport s.Conn → Option (List ℕ) × Transport s.Conn
  transport_uds_message_receive t = elim t.in_message [
    | idle ↦ header_seen t (s.recv true header_length t.conn)
    | reading data_size received ↦ receive_data data_size received t
  ]

  pub transport_uds_message_release : Transport s.Conn → Transport s.Conn
  transport_uds_message_release t = record t { in_message = idle }

  -- The pointers to outgoing data that have been freed when it returns: the loop takes the messages
  -- off the list one by one. What else it closes and frees is not looked at.
  pub transport_uds_destroy : Transport s.Conn → List ℕ
  transport_uds_destroy t = t.freed ++ map (λ msg. msg.data_at) t.out_messages

  -- `event_manager_uds_wait_readable` and `event_manager_uds_wait_writeable`
  pub event_manager_uds_wait_readable : Transport s.Conn → Transport s.Conn
  event_manager_uds_wait_readable t = record t { wait_readable = t.wait_readable + 1 }

  pub event_manager_uds_wait_writeable : Transport s.Conn → Transport s.Conn
  event_manager_uds_wait_writeable t = record t { wait_writeable = t.wait_writeable + 1 }

  -- The handler's answer to what `transport_uds_write_messages` returned.
  pub after_write : Option ℕ × Transport s.Conn → Transport s.Conn
  after_write (none, t) = t
  after_write (some n, t) = if ltb 0 n then event_manager_uds_wait_writeable t else t

  -- One completion, which is no request any more; `interrupted` when the handler takes it for `EINTR`
  -- or `EAGAIN`.
  pub event_handled :
      EventType → (interrupted : Bool) → Transport s.Conn → Option (List ℕ) × Transport s.Conn
  event_handled readable interrupted t =
      let t' = event_manager_uds_wait_readable (record t { wait_readable = t.wait_readable - 1 }) in
      if interrupted then (none, t') else transport_uds_message_receive t'
  event_handled writeable interrupted t =
      let t' = record t { wait_writeable = t.wait_writeable - 1 } in
      (
        none,
        (if interrupted
            then event_manager_uds_wait_writeable t'
            else after_write (transport_uds_write_messages t')),
      )

  abbrev pub event_manager_uds_handle_event :
      EventType → (res : CqeResult) → Transport s.Conn → Option (List ℕ) × Transport s.Conn
  event_manager_uds_handle_event kind res t = event_handled kind (is_interrupted res) t
