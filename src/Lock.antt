-- ===== src/Lock.antt =====
-- The lock of an arena and of an allocator between several processes (`arena_lock` and `arena_unlock`
-- of src/shmem/transport_shm.c, `allocator_lock` and `allocator_unlock` of src/shmem/allocator.c, the
-- same code twice). The exchanges on the futex are atomic, and the kernel compares the word and puts
-- the process to sleep in one step; `futex_wait` and `futex_wake` do not fail on a word that is mapped.
pub mod Exclusion
pub mod Live
pub mod Progress
mod Tests
use libkrossbar.Prelude.{ℕ, Bool, List, ◌∷◌, ◌++◌, map, ◌==◌, if◌then◌else◌}

-- `atomic_compare_exchange_strong`: whether it succeeded, the word, and what was expected.
abbrev pub compare_exchange : (word expected desired : ℕ) → Bool × ℕ × ℕ
compare_exchange word expected desired =
    if word == expected
    then (word == expected, desired, expected)
    else (word == expected, word, word)

-- Where a process is: at its own work, before the exchange of `arena_lock`, before its `futex_wait` or
-- asleep in it, with what its local variable `zero` holds, or with the lock.
pub data Process : Type 0 where
  outside inside : Process
  trying waiting sleeping : (expected : ℕ) → Process

-- What `futex_wake` of all does to a process.
abbrev pub woken : Process → Process
woken (sleeping expected) = trying expected
woken (trying expected) = trying expected
woken (waiting expected) = waiting expected
woken outside = outside
woken inside = inside

-- The word of the futex, and the processes that map it.
pub record System : Type 0 where
  pub futex : ℕ
  pub processes : List Process

abbrev pub with_process : (word : ℕ) → List Process → Process → List Process → System
with_process word before p after = record { futex = word; processes = before ++ (p ∷ after) }

-- `zero` is declared const: whether the store of a failed exchange reaches it is the compiler's choice.
module _ (overwrites : Bool) where
  -- The exchange of `arena_lock`: the process afterwards, and the word.
  unfoldable pub enter : (expected word : ℕ) → Process × ℕ
  enter expected word =
      let (success, word', found) = compare_exchange word expected 1 in
      (if success then inside else waiting (if overwrites then found else expected), word')

-- `futex_wait` on the word with the value 1: it returns at once, with `EAGAIN`, when the word is another.
unfoldable pub wait : (expected word : ℕ) → Process
wait expected word = if word == 1 then sleeping expected else trying expected

-- `arena_unlock`: the word afterwards, and what becomes of the other processes: they are woken when
-- the exchange succeeds.
unfoldable pub leave : (word : ℕ) → ℕ
leave word = (compare_exchange word 1 0).1

unfoldable pub others : (word : ℕ) → List Process → List Process
others word ps = if (compare_exchange word 1 0).0 then map woken ps else ps

-- A step of one process among others.
pub data Step (overwrites : Bool) : System → System → Type 0 where
  starts :
      (word : ℕ) (before after : List Process)
      → Step overwrites
          (with_process word before outside after)
          (with_process word before (trying 0) after)
  enters :
      (word expected : ℕ) (before after : List Process)
      → Step overwrites (with_process word before (trying expected) after) (
          with_process
            (enter overwrites expected word).1
            before
            (enter overwrites expected word).0
            after)
  waits :
      (word expected : ℕ) (before after : List Process)
      → Step overwrites
          (with_process word before (waiting expected) after)
          (with_process word before (wait expected word) after)
  leaves :
      (word : ℕ) (before after : List Process)
      → Step overwrites
          (with_process word before inside after)
          (with_process (leave word) (others word before) outside (others word after))

pub data Steps (overwrites : Bool) (s : System) : System → Type 0 where
  start : Steps overwrites s s
  later : {u w : System} → Steps overwrites s u → Step overwrites u w → Steps overwrites s w
