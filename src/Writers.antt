-- ===== src/Writers.antt =====
-- Giving up a message that was not sent (src/message_writer.c), by the `cancel` functions of
-- src/uds/message_writer_uds.c, src/shmem/message_writer_shm.c and src/rpc.c.
pub mod Cancel
mod Tests
use libkrossbar.Prelude.{ℕ, zero, suc, Bool, true, false, List, [], ◌∷◌, ◌==◌, ◌||◌, if◌then◌else◌}

-- The function that a writer's field `cancel` points to.
pub data CancelFunction : Type 0 where
  message_writer_uds_cancel message_writer_shm_cancel rpc_message_cancel : CancelFunction

-- `kb_message_writer_t`: where it stands, and its fields that are used here.
pub record Writer : Type 0 where
  pub at : ℕ
  pub buffer : ℕ
  pub cancel : CancelFunction

-- What a cancel comes to: it returns, with the pointers freed so far, the latest first, and whether a
-- writer was read after it had been freed, which leaves undefined what was read; or it has used up
-- its fuel.
pub data CancelRun : Type 0 where
  returned : (freed : List ℕ) (reads_freed : Bool) → CancelRun
  out_of_fuel : CancelRun

abbrev pub is_freed : ℕ → List ℕ → Bool
is_freed p [] = false
is_freed p (q ∷ freed) = if p == q then true else is_freed p freed

-- `doc_writer_destroy(writer->document_writer)`, which reads the writer. What it releases of the
-- document writer is not looked at.
pub destroy_document : Writer → CancelRun → CancelRun
destroy_document w (returned freed reads_freed) =
    returned freed (is_freed w.at freed || reads_freed)
destroy_document w out_of_fuel = out_of_fuel

-- `writer->cancel(writer)`; `again` is the run of `message_cancel` that `rpc_message_cancel` calls.
pub call_cancel : Writer → List ℕ → (again : CancelRun) → CancelFunction → CancelRun
call_cancel w freed again message_writer_uds_cancel = returned (w.at ∷ w.buffer ∷ freed) false
call_cancel w freed again message_writer_shm_cancel = returned (w.at ∷ freed) false
call_cancel w freed again rpc_message_cancel = again

-- The calls nest at most `fuel` deep.
pub message_cancel : (fuel : ℕ) → Writer → List ℕ → CancelRun
message_cancel zero w freed = out_of_fuel
message_cancel (suc k) w freed =
    let again = message_cancel k w freed in destroy_document w (call_cancel w freed again w.cancel)
