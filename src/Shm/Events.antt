-- ===== src/Shm/Events.antt =====
-- The event manager of the transport over shared memory (src/shmem/event_manager_shm.c). Of io_uring,
-- a parameter, the requests to wait on `num_messages` that it holds are counted.
use libkrossbar.Prelude.{ℕ, ◌+◌, ◌-◌, Bool, Option, none, some, ◌&&◌, if◌then◌else◌}
use libkrossbar.Memory.{Cmd, pure, ◌>>=◌}
use libkrossbar.Cqe.{CqeResult, is_interrupted}
use libkrossbar.Shm.{Arena, transport_shm_message_receive}

-- `kb_event_manager_shm_t`
pub record Manager : Type 0 where
  pub waits : ℕ

-- Whether `malloc` returns memory, and what the probe of the ring answers.
pub event_manager_shm_create :
    (malloc_ok probe_ok futex_wait_supported futex_wake_supported : Bool) → Option Manager
event_manager_shm_create malloc_ok probe_ok futex_wait_supported futex_wake_supported =
    if malloc_ok && (probe_ok && (futex_wait_supported && futex_wake_supported))
    then some (record { waits = 0 })
    else none

pub event_manager_shm_wait_messages : Manager → Manager
event_manager_shm_wait_messages s = record s { waits = s.waits + 1 }

-- One completion of a wait, which is no request any more.
pub event_manager_shm_handle_event : Arena → (res : CqeResult) → Manager → Cmd (Option ℕ × Manager)
event_manager_shm_handle_event read_arena res s = do
  let s' : Manager = record s { waits = s.waits - 1 }
  if is_interrupted res
      then pure (none, event_manager_shm_wait_messages s')
      else (transport_shm_message_receive read_arena >>= λ message. pure (message, s'))
