-- ===== src/Cqe.antt =====
-- The result of a completion of io_uring, `res` of its `struct io_uring_cqe`: a value, or a failure,
-- for which the kernel stores the negated `errno`. The tests of the event managers in
-- src/uds/event_manager_uds.c and src/shmem/event_manager_shm.c.
use libkrossbar.Prelude.{ℕ, Bool, false, ◌==◌, ◌||◌}

pub data CqeResult : Type 0 where
  value : ℕ → CqeResult
  failure : (errno : ℕ) → CqeResult

abbrev eintr : ℕ
eintr = 4

abbrev eagain : ℕ
eagain = 11

-- `cqe->res == EINTR || cqe->res == EAGAIN`, which no negative result passes.
abbrev pub is_interrupted : CqeResult → Bool
is_interrupted (value n) = (n == eintr) || (n == eagain)
is_interrupted (failure errno) = false
