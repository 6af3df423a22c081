-- ===== src/Uds/Stalled.antt =====
-- Runs of the transport over a Unix domain socket (src/uds/transport_uds.c,
-- src/uds/event_manager_uds.c): the calls of its owner and the events that its requests allow.
use libkrossbar.Prelude.{ℕ, ◌+◌, ◌<◌, ◌^◌, ◌≡◌, refl, ◌∙◌, false, none, List, arith}
use libkrossbar.Cqe.{CqeResult, is_interrupted}
use libkrossbar.Uds.SocketApi.{Socket}
use libkrossbar.Uds.{
  Transport, readable, writeable, transport_uds_message_send, transport_uds_message_release,
  transport_uds_write_messages, event_manager_uds_handle_event, event_handled, after_write,
}
use libkrossbar.Uds.Counts.{IsCounted, message_send-IsCounted, write_messages-IsCounted}
use libkrossbar.Uds.Waiting.{readable-SameOut, answered}

module _ (s : Socket) where
  -- One step: the owner hands a message over or releases one, or a request is completed.
  pub data Step : Transport s.Conn → Transport s.Conn → Type 0 where
    hands_over :
        {t : Transport s.Conn} (p : ℕ) (bytes : List ℕ)
        → t.out_message_count + 2 < 2 ^ 64
        → Step t (transport_uds_message_send s p bytes t)
    releases : {t : Transport s.Conn} → Step t (transport_uds_message_release s t)
    reads :
        {t : Transport s.Conn} (res : CqeResult)
        → 0 < t.wait_readable
        → Step t (event_manager_uds_handle_event s readable res t).1
    writes :
        {t : Transport s.Conn} (res : CqeResult)
        → 0 < t.wait_writeable
        → Step t (event_manager_uds_handle_event s writeable res t).1

  pub data Steps : Transport s.Conn → Transport s.Conn → Type 0 where
    stop : {t : Transport s.Conn} → Steps t t
    and_then : {t u w : Transport s.Conn} → Step t u → Steps u w → Steps t w

-- Messages are queued, and no request for a writeable event stands.
pub record IsStalled {Conn : Type 0} (t : Transport Conn) : Type 0 where
  pub counted : IsCounted t
  pub queued : 0 < t.out_message_count
  pub unawaited : t.wait_writeable ≡ 0

module _ (s : Socket) where
  -- On a counted transport with one request for a writeable event: when that event comes with a
  -- result other than 4 and 11 and a send fails, messages are queued and no request stands.
  pub failed-IsStalled :
      (res : CqeResult) (t : Transport s.Conn)
      → is_interrupted res ≡ false
      → IsCounted t
      → t.wait_writeable ≡ 1
      → (transport_uds_write_messages s (answered s t)).0 ≡ none
      → IsStalled (event_manager_uds_handle_event s writeable res t).1
  unfolding event_handled after_write transport_uds_write_messages
  failed-IsStalled res t through c one failed =
      let w =
        write_messages-IsCounted s (answered s t)
          (record { counted = c.counted; bounded = c.bounded }) in
      rw (through, failed)
        (record {
          counted = record { counted = w.0.counted; bounded = w.0.bounded };
          queued = omega (arith, w.1 failed, w.0.counted);
          unawaited = omega arith;
        })

  Step-IsStalled :
      {t u : Transport s.Conn}
      → Step s t u
      → IsStalled t
      → IsStalled u × (s.sent u.conn ≡ s.sent t.conn)
  Step-IsStalled (hands_over {t} p bytes b) v = (
    record {
      counted = message_send-IsCounted s p bytes t v.counted b;
      queued = unfold transport_uds_message_send in omega (arith, v.queued);
      unawaited = unfold transport_uds_message_send in ground (arith, v.queued, v.unawaited);
    },
    unfold transport_uds_message_send in refl,
  )
  Step-IsStalled (releases {t}) v =
      unfold transport_uds_message_release in
      (
        record {
          counted = record { counted = v.counted.counted; bounded = v.counted.bounded };
          queued = v.queued;
          unawaited = v.unawaited;
        },
        refl,
      )
  Step-IsStalled (reads {t} res p) v =
      let same = readable-SameOut s (is_interrupted res) t in
      (
        record {
          counted = record {
            counted = rw (same.count, same.queue) v.counted.counted;
            bounded = omega (arith, same.count, v.counted.bounded);
          };
          queued = omega (arith, same.count, v.queued);
          unawaited = same.waits ∙ v.unawaited;
        },
        same.sent,
      )
  Step-IsStalled (writes res p) v = absurd (omega (arith, v.unawaited))

  -- From a state with messages queued and no request for a writeable event: whatever messages are
  -- handed over or released and whatever events come, messages stay queued, no request stands, and
  -- the bytes sent are the same.
  pub Steps-IsStalled :
      {t u : Transport s.Conn}
      → Steps s t u
      → IsStalled t
      → IsStalled u × (s.sent u.conn ≡ s.sent t.conn)
  Steps-IsStalled stop v = (v, refl)
  Steps-IsStalled (and_then step rest) v =
      let here = Step-IsStalled step v in
      let later = Steps-IsStalled rest here.0 in (later.0, later.1 ∙ here.1)
