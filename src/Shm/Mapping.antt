-- ===== src/Shm/Mapping.antt =====
-- A new mapping (src/shmem/transport_shm.c): the process that makes it writes the header of the arena,
-- and the transport that sends through it sets up the allocator behind.
use libkrossbar.Prelude.{
  ℕ, ◌+◌, ◌-◌, ◌^◌, ◌≤◌, ◌<◌, ◌≡◌, refl, ◌∙◌, true, false, Option, some, [], ◌∷◌, arith, ltb,
}
use libkrossbar.Memory.{Memory, Cmd, write, ok, ◌>>◌, align, add_size, sub_size, null_offset}
use libkrossbar.Allocator.Fields.{free}
use libkrossbar.Allocator.Layout.{block}
use libkrossbar.Allocator.Validity.{IsValid}
use libkrossbar.Allocator.{allocator_create}
use libkrossbar.Allocator.Create.{create-IsValid}
use libkrossbar.Shm.{
  Arena, size_of, num_messages_of, futex_of, first_message_of, last_message_of, create_mapping,
  transport_shm_get_mapping_size, transport_message_offset, init_write_arena,
  create_write_allocator,
}
use libkrossbar.Shm.Queue.{IsArena}

-- The arena that a transport sends through, in a mapping at `header`.
abbrev pub arena_at : ℕ → Arena
arena_at header = record { header = header; allocator = record { header = header + 32 } }

-- The mapping is made for `buffer_size` bytes, and the transport is set up on its file.
abbrev pub new_arena : (header buffer_size max_message_size : ℕ) → Cmd (Option Arena)
new_arena header buffer_size max_message_size =
    create_mapping header buffer_size
    >> init_write_arena true header
        (transport_shm_get_mapping_size (some (add_size buffer_size 32))) max_message_size

module _ (header buffer_size max_message_size : ℕ) (m : Memory) (page : 4096 ≤ header)
    (room : 120 ≤ buffer_size) (fits : header + buffer_size < 2 ^ 64)
    (some_message : 0 < max_message_size) (holds : max_message_size + 96 ≤ buffer_size)
    (fresh : m (futex_of (arena_at header)) ≡ 0) where
  mapped : Memory
  mapped =
      write
        (write (write (write m (header + 16) null_offset) (header + 24) null_offset) header
          buffer_size)
        (header + 8) 0

  mapped_words :
      (mapped (size_of (arena_at header)) ≡ buffer_size)
      × (mapped (num_messages_of (arena_at header)) ≡ 0)
      × (mapped (futex_of (arena_at header)) ≡ 0)
      × (mapped (first_message_of (arena_at header)) ≡ null_offset)
      × (mapped (last_message_of (arena_at header)) ≡ null_offset)
  unfolding mapped write
  mapped_words = (ground arith, ground arith, ground arith, ground arith, ground arith)

  max_aligned : add_size max_message_size 16 ≡ max_message_size + 16
  max_aligned = omega (arith, holds, fits)

  mapping_size : transport_shm_get_mapping_size (some (add_size buffer_size 32)) ≡ buffer_size
  unfolding transport_shm_get_mapping_size
  mapping_size = omega (arith, fits, page)

  -- From the first write to the last.
  new_arena_run :
      (m' : Memory)
      → allocator_create true (header + 32) (buffer_size - 32) (max_message_size + 16) mapped
        ≡ ok (some (record { header = header + 32 })) m'
      → new_arena header buffer_size max_message_size m ≡ ok (some (arena_at header)) m'
  unfolding create_mapping init_write_arena create_write_allocator mapped
  new_arena_run m' run = rw (mapping_size, large, rest, max_aligned, run) refl
    where
      large : ltb buffer_size max_message_size ≡ false
      large = ground (arith, holds)

      rest : sub_size buffer_size 32 ≡ buffer_size - 32
      rest = omega (arith, fits, room)

  new_IsArena :
      (m' : Memory)
      → IsValid
          (record { header = header + 32 })
          m'
          (header + buffer_size)
          (block (buffer_size - 72) free ∷ [])
          ((header + 72) ∷ [])
      → m' (header + 32) ≡ 0
      → m' (header + 32 + 24) ≡ align (max_message_size + 16)
      → ((y : ℕ) → y < header + 32 → m' y ≡ mapped y)
      → IsArena
          (arena_at header)
          (header + buffer_size)
          m'
          (block (buffer_size - 72) free ∷ [])
          ((header + 72) ∷ [])
          []
  new_IsArena m' valid unlocked largest below = record {
    placed = refl;
    region = rw (below header (omega arith), mapped_words.0) refl;
    valid = valid;
    configured = record {
      aligned = rw largest (omega arith);
      positive = rw largest (omega (arith, holds, fits));
      small = rw largest (omega (arith, holds, fits, page));
    };
    released = unlocked;
    unlocked = below (header + 12) (omega arith) ∙ mapped_words.2;
    counted = below (header + 8) (omega arith) ∙ mapped_words.1;
    bounded = omega arith;
    queued = below (header + 16) (omega arith) ∙ mapped_words.3;
    last =
        below (header + 24) (omega arith)
        ∙ mapped_words.4
        ∙ unfold transport_message_offset in refl;
    held = tt;
    distinct = tt;
  }

  -- For a mapping whose `futex` is 0, as in a new file, between the first page and the end of the
  -- address space, of 120 bytes or more that hold a largest message, which is not empty, and 96
  -- bytes more: `transport_shm_create_mapping` and `transport_shm_init`, with `malloc` giving the
  -- handle, make an arena without messages, whose region is one free block.
  pub new_arena-IsArena :
      (m' : Memory) × (new_arena header buffer_size max_message_size m
        ≡ ok (some (arena_at header)) m')
      × IsArena
          (arena_at header)
          (header + buffer_size)
          m'
          (block (buffer_size - 72) free ∷ [])
          ((header + 72) ∷ [])
          []
  new_arena-IsArena =
      let (m', run, valid, unlocked, total, largest, below) =
        create-IsValid (header + 32) (buffer_size - 32) (max_message_size + 16) mapped (omega arith)
          (omega arith) (omega arith) (omega arith) (omega arith) (omega arith) in
      (
        m',
        new_arena_run m' run,
        new_IsArena m' (rw (whole, block_size, head) at valid) unlocked largest below,
      )
    where
      whole : header + 32 + (buffer_size - 32) ≡ header + buffer_size
      whole = omega (arith, room)

      block_size : buffer_size - 32 - 40 ≡ buffer_size - 72
      block_size = omega arith

      head : header + 32 + 40 ≡ header + 72
      head = omega arith
