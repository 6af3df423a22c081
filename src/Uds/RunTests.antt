-- ===== src/Uds/RunTests.antt =====
-- A message over a socket that takes all it is given (src/uds/transport_uds.c).
use libkrossbar.Prelude.{ℕ, ◌≡◌, refl, List, [], ◌∷◌, ◌++◌, arith}
use libkrossbar.Cqe.{value}
use libkrossbar.Uds.{
  Transport, idle, readable, writeable, transport_uds_message_send, event_handled,
  event_manager_uds_handle_event, transport_uds_message_release, header_bytes,
  transport_uds_message_receive, event_manager_uds_wait_readable, after_write,
  transport_uds_write_messages, write_loop, headed_result, send_header, header_result, data_result,
  header_seen, header_read, read_header, receive_data, data_received,
}
use libkrossbar.Uds.Sending.{Sends, hands_over, writes, stop}
use libkrossbar.Uds.Delivery.{Receives, arrives, reads, releases, Sends-Receives}
use libkrossbar.Uds.Tests.{Ends, pipe, pipe-TakesHeaders, busy}

-- Nothing was sent, and nothing has come.
abbrev quiet : Transport Ends
quiet = record busy { out_messages = []; out_message_count = 0; wait_writeable = 0 }

abbrev body : List ℕ
body = 72 ∷ 105 ∷ []

abbrev sender : Transport Ends
sender =
    (event_manager_uds_handle_event pipe writeable (value 1)
      (transport_uds_message_send pipe 6000 body quiet)).1

abbrev nothing : List ℕ
nothing = []

sender_run : Sends pipe quiet (body ∷ []) sender
sender_run = hands_over 6000 body [] (writes (value 1) [] stop)

-- The bytes that have arrived.
abbrev arrived : Transport Ends
arrived = record quiet { conn = ([], header_bytes 2 ++ body) }

abbrev receiver : Transport Ends
receiver =
    transport_uds_message_release pipe
      (event_manager_uds_handle_event pipe readable (value 1) arrived).1

receiver_run : Receives pipe quiet (pipe.sent sender.conn) (body ∷ []) receiver []
unfolding event_handled transport_uds_message_receive event_manager_uds_wait_readable header_bytes
    after_write transport_uds_write_messages write_loop transport_uds_message_send headed_result
    send_header header_result data_result transport_uds_message_release header_seen header_read
    read_header receive_data data_received
receiver_run =
    arrives (header_bytes 2 ++ body) [] ([], header_bytes 2 ++ body) (body ∷ []) refl
      (reads (value 1) [] (releases body [] refl Receives.stop))

Sends-Receives_example :
    (rest : List (List ℕ)) × (body ∷ [] ≡ (body ∷ []) ++ rest)
    × (sender.out_messages ≡ []
        → nothing ≡ []
        → pipe.pending receiver.conn ≡ []
        → receiver.in_message ≡ idle
        → rest ≡ [])
Sends-Receives_example =
    Sends-Receives pipe pipe quiet sender quiet receiver nothing (body ∷ []) (body ∷ [])
      pipe-TakesHeaders (omega arith, omega arith, tt) refl refl sender_run refl refl receiver_run
