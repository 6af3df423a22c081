-- ===== src/Shm/Setup/Tests.antt =====
-- A transport whose structure had another transport's contents, and one that was refused its write
-- mapping (src/shmem/transport_shm.c).
use libkrossbar.Prelude.{ℕ, ◌+◌, ◌≡◌, refl, inr, Option, none, some, List, [], ◌∷◌, ◌++◌, arith}
use libkrossbar.Memory.{Memory, ok}
use libkrossbar.Shm.Setup.{
  Release, munmap, close, free, SharedArena, Transport, Answers, transport_shm_init,
  transport_shm_destroy,
}
use libkrossbar.Shm.Setup.Failure.{arena_released, init_failed-unset}
use libkrossbar.Shm.Setup.Lifetime.{init-destroy}

abbrev zeros : Memory
zeros y = 0

abbrev old_arena : SharedArena
old_arena = record {
  header = 77;
  allocator = some (record { at = 5; allocator = record { header = 99 } });
  shm_fd = 6;
}

abbrev old : Transport
old = record {
  at = 900;
  name = 13;
  event_manager = 17;
  read_arena = old_arena;
  write_arena = old_arena;
  max_message_size = 1;
}

abbrev answers : Option Transport → Option ℕ → Answers
answers memory write_map = record {
  memory = memory;
  name = 901;
  event_manager = 902;
  read_map = some 8192;
  read_handle = 903;
  write_size = some (4096 + 32);
  write_map = write_map;
  write_handle = 904;
}

init-destroy_example :
    (m' : Memory) × (t : Transport) × (transport_shm_init
        (answers (some old) (some 16384))
        3
        4
        64
        zeros
      ≡ ok (some t, []) m')
    × (transport_shm_destroy t m'
        ≡ ok
            (free 901
              ∷ (arena_released 8192 (m' 8232) 3 903
                  ++ (munmap 16384 4056 ∷ close 4 ∷ free 904 ∷ free 902 ∷ free 900 ∷ [])))
            m')
init-destroy_example =
    init-destroy (answers (some old) (some 16384)) 3 4 64 zeros old 8192 16384 4096 (omega arith)
      (omega arith) (omega arith) (omega arith) refl refl refl refl (omega arith) (omega arith)
      (omega arith) (omega arith) (omega arith)

-- There is no write mapping, and the other transport's arena is given back.
init_failed-unset_example :
    (before after : List Release) × (transport_shm_init (answers (some old) none) 3 4 64 zeros
      ≡ ok (none, before ++ (munmap 67 32 ∷ close 6 ∷ free 5 ∷ after)) zeros)
init_failed-unset_example =
    init_failed-unset (answers (some old) none) 3 4 64 zeros old
      (record { at = 5; allocator = record { header = 99 } }) refl refl (inr (inr (inr (inr refl))))
