-- ===== src/Shm/Setup/Lifetime.antt =====
-- A transport over shared memory from its setup until it is destroyed
-- (src/shmem/transport_shm.c).
use libkrossbar.Prelude.{
  ℕ, ◌+◌, ◌-◌, ◌^◌, ◌≤◌, ◌<◌, ◌≡◌, ◌≢◌, refl, sym, true, false, some, [], ◌∷◌, ◌++◌, arith, ltb,
  nonzero,
}
use libkrossbar.Memory.{Memory, ok, null, add_size, sub_size}
use libkrossbar.Allocator.{allocator_create}
use libkrossbar.Allocator.Create.{create-IsValid}
use libkrossbar.Shm.{transport_shm_get_mapping_size, create_write_allocator}
use libkrossbar.Shm.Setup.{
  munmap, close, free, Transport, allocator_destroy, event_manager_shm_destroy, destroy_arena,
  transport_shm_destroy, Answers, write_arena_made, write_mapped, init_writing, transport_shm_init,
}
use libkrossbar.Shm.Setup.Failure.{arena_released, with_read_arena, reaches_write}

module _ (a : Answers) (read_fd write_fd max_message_size : ℕ) (m : Memory) (memory : Transport)
    (read_map write_map size : ℕ) (manager_ok : a.event_manager ≢ null) (name_ok : a.name ≢ null)
    (read_ok : a.read_handle ≢ null) (write_ok : a.write_handle ≢ null)
    (given : a.memory ≡ some memory) (read : a.read_map ≡ some read_map)
    (write : a.write_map ≡ some write_map) (file : a.write_size ≡ some (size + 32))
    (page : 4096 ≤ write_map) (room : 120 ≤ size) (fits : write_map + size < 2 ^ 64)
    (some_message : 0 < max_message_size) (holds : max_message_size + 96 ≤ size) where
  abbrev set_up : Transport
  set_up = record memory {
    name = a.name;
    event_manager = a.event_manager;
    read_arena = record {
      header = read_map;
      allocator =
          some (record { at = a.read_handle; allocator = record { header = read_map + 32 } });
      shm_fd = read_fd;
    };
    write_arena = record {
      header = write_map;
      allocator =
          some (record { at = a.write_handle; allocator = record { header = write_map + 32 } });
      shm_fd = write_fd;
    };
    max_message_size = max_message_size;
  }

  mapping_size : transport_shm_get_mapping_size (some (size + 32)) ≡ size
  unfolding transport_shm_get_mapping_size
  mapping_size = omega (arith, fits, page)

  set_up_run :
      (m' : Memory)
      → allocator_create true (write_map + 32) (size - 32) (max_message_size + 16) m
        ≡ ok (some (record { header = write_map + 32 })) m'
      → transport_shm_init a read_fd write_fd max_message_size m ≡ ok (some set_up, []) m'
  unfolding init_writing write_mapped write_arena_made create_write_allocator with_read_arena
  set_up_run m' run =
      rw
        (
          reaches_write a read_fd write_fd max_message_size m manager_ok name_ok memory read_map
              given read read_ok,
          file,
          mapping_size,
          large,
          write,
          nonzero a.write_handle write_ok,
          rest,
          max_aligned,
          run,
        )
        refl
    where
      large : ltb size max_message_size ≡ false
      large = ground (arith, holds)

      rest : sub_size size 32 ≡ size - 32
      rest = omega (arith, fits, room)

      max_aligned : add_size max_message_size 16 ≡ max_message_size + 16
      max_aligned = omega (arith, holds, fits)

  set_up_destroyed :
      (m' : Memory)
      → m' (write_map + 40) ≡ size - 72
      → transport_shm_destroy set_up m'
        ≡ ok
            (free a.name
              ∷ (arena_released read_map (m' (read_map + 40)) read_fd a.read_handle
                  ++ (munmap write_map (size - 40)
                      ∷ close write_fd
                      ∷ free a.write_handle
                      ∷ free a.event_manager
                      ∷ free memory.at
                      ∷ [])))
            m'
  unfolding transport_shm_destroy destroy_arena event_manager_shm_destroy allocator_destroy
  set_up_destroyed m' total =
      rw
        (
          nonzero a.event_manager manager_ok,
          nonzero a.name name_ok,
          start read_map,
          start write_map,
          word read_map,
          word write_map,
          total,
          mapped,
        )
        refl
    where
      start : (map : ℕ) → map + 32 - 32 ≡ map
      start map = omega arith

      word : (map : ℕ) → map + 32 + 8 ≡ map + 40
      word map = omega arith

      mapped : add_size (size - 72) 32 ≡ size - 40
      mapped = omega (arith, fits, room)

  -- When every call of `transport_shm_init` succeeds, whatever `malloc` left in the structure, the
  -- file of the write mapping has `size` bytes and 32 more, and the `size` bytes that are mapped
  -- lie between the first page and the end of the address space, are 120 or more, and hold a
  -- largest message, which is not empty, and 96 bytes more: the transport is returned, and to
  -- destroy it gives back the name, the event manager, the structure, both handles and both files,
  -- each once, unmaps the read mapping by the size that stands in it, and of the `size` bytes of
  -- the write mapping all but the last 40.
  pub init-destroy :
      (m' : Memory) × (t : Transport) × (transport_shm_init a read_fd write_fd max_message_size m
        ≡ ok (some t, []) m')
      × (transport_shm_destroy t m'
          ≡ ok
              (free a.name
                ∷ (arena_released read_map (m' (read_map + 40)) read_fd a.read_handle
                    ++ (munmap write_map (size - 40)
                        ∷ close write_fd
                        ∷ free a.write_handle
                        ∷ free a.event_manager
                        ∷ free memory.at
                        ∷ [])))
              m')
  init-destroy =
      let (m', run, valid, unlocked, account, largest, below) =
        create-IsValid (write_map + 32) (size - 32) (max_message_size + 16) m (omega arith)
          (omega arith) (omega arith) (omega arith) (omega arith) (omega arith) in
      let total : m' (write_map + 40) ≡ size - 72 =
        rw (sym word) (omega (arith, valid.ends, room)) in
      (m', set_up, set_up_run m' run, set_up_destroyed m' total)
    where
      word : write_map + 32 + 8 ≡ write_map + 40
      word = omega arith
