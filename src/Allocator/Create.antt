-- ===== src/Allocator/Create.antt =====
-- `allocator_create`: the region that it hands out (src/shmem/allocator.c).
use libkrossbar.Prelude.{
  ℕ, ◌+◌, ◌-◌, ◌^◌, ◌≤◌, ◌<◌, ◌≡◌, refl, ◌≢◌, inl, true, [], ◌∷◌, arith, ◌∙◌, some,
}
use libkrossbar.Memory.{Memory, write, ok, sub_size, align, null_offset}
use libkrossbar.Allocator.Fields.{
  Allocator, free, futex_of, total_size_of, free_size_of, max_message_size_of, next_free_of,
  next_of,
}
use libkrossbar.Allocator.{allocator_create, initialise}
use libkrossbar.Allocator.Tags.{tagged, write_block_tags_lem, tagged_ne, tagged_size}
use libkrossbar.Allocator.Layout.{block}
use libkrossbar.Allocator.Validity.{IsValid}
use libkrossbar.Allocator.Attach.{IsPending, added, added_ne, add_free_block_lem, added-IsValid}

module _ (memory total max_message : ℕ) (m : Memory) (pos : 0 < memory) (room : 88 ≤ total)
    (fits : memory + total < 2 ^ 64) where
  abbrev handle : Allocator
  handle = record { header = memory }

  abbrev first : ℕ
  first = memory + 40

  -- The header's words, written before the first block.
  headed : Memory
  headed =
      write
        (write
          (write
            (write (write (write m (futex_of handle) 0) (total_size_of handle) (total - 40))
              (free_size_of handle) (total - 40))
            (next_free_of handle) null_offset)
          (max_message_size_of handle) (align max_message))
        (next_of first) null_offset

  abbrev marked : Memory
  marked = tagged headed first (total - 40) free

  headed_words :
      (headed (futex_of handle) ≡ 0)
      × (headed (total_size_of handle) ≡ total - 40)
      × (headed (free_size_of handle) ≡ total - 40)
      × (headed (next_free_of handle) ≡ null_offset)
      × (headed (max_message_size_of handle) ≡ align max_message)
  unfolding headed write
  headed_words = (ground arith, ground arith, ground arith, ground arith, ground arith)

  marked_header : (y : ℕ) → y < first → marked y ≡ headed y
  marked_header y h =
      tagged_ne headed first (total - 40) free y (omega arith) (omega arith) (omega arith)
        (omega arith)

  pending : IsPending handle marked (memory + total) [] first (total - 40) [] []
  pending = record {
    header_pos = pos;
    ends = omega (arith, marked_header (total_size_of handle) (omega arith), headed_words);
    fits = fits;
    front = refl;
    big = omega arith;
    aligned = omega arith;
    size_tag = tagged_size headed first (total - 40) free (omega arith);
    back = omega arith;
    chain = marked_header (next_free_of handle) (omega arith) ∙ headed_words.3;
    listed = λ y. refl;
    distinct = tt;
  }

  pub created : Memory
  created = added handle marked first

  pub initialise_lem : initialise memory total max_message m ≡ ok (some handle) created
  unfolding initialise created headed
  initialise_lem =
      rw
        (
          region,
          write_block_tags_lem headed' first (total - 40) free (omega arith) (omega arith),
          add_free_block_lem handle marked (memory + total) [] first (total - 40) [] [] pending,
        )
        refl
    where
      region : sub_size total 40 ≡ total - 40
      region = omega arith

      headed' : Memory
      headed' = headed

  pub created-IsValid :
      IsValid handle created (memory + total) (block (total - 40) free ∷ []) (first ∷ [])
  unfolding created
  created-IsValid = added-IsValid handle marked (memory + total) [] first (total - 40) [] [] pending

  pub created_header :
      (created (futex_of handle) ≡ 0)
      × (created (free_size_of handle) ≡ total - 40)
      × (created (max_message_size_of handle) ≡ align max_message)
  unfolding created
  created_header = (
    same (futex_of handle) (omega arith) (omega arith) ∙ headed_words.0,
    same (free_size_of handle) (omega arith) (omega arith) ∙ headed_words.2,
    same (max_message_size_of handle) (omega arith) (omega arith) ∙ headed_words.4,
  )
    where
      same : (y : ℕ) → y < first → y ≢ next_free_of handle → added handle marked first y ≡ headed y
      same y lt ne =
          added_ne handle marked (memory + total) [] first (total - 40) [] [] pending y ne (inl lt)
          ∙ marked_header y lt

  created_below : (y : ℕ) → y < memory → created y ≡ m y
  unfolding created
  created_below y lt =
      added_ne handle marked (memory + total) [] first (total - 40) [] [] pending y (omega arith)
        (inl (omega arith))
      ∙ marked_header y (omega arith)
      ∙ headed_below
    where
      headed_below : headed y ≡ m y
      headed_below = unfold headed write in ground arith

  -- Given a mapping of at least 88 bytes inside the address space, a largest message that is
  -- positive, no larger than the mapping and, aligned, leaves room for the header, and a handle:
  -- `allocator_create` returns it. The region behind the header is one free block, which is listed;
  -- it is valid and unlocked, its account is the size of that block, and no word below the mapping
  -- has changed.
  pub create-IsValid :
      0 < max_message
      → max_message ≤ total
      → align max_message + 40 ≤ total
      → (m' : Memory) × (allocator_create true memory total max_message m ≡ ok (some handle) m')
        × IsValid handle m' (memory + total) (block (total - 40) free ∷ []) (first ∷ [])
        × (m' (futex_of handle) ≡ 0)
        × (m' (free_size_of handle) ≡ total - 40)
        × (m' (max_message_size_of handle) ≡ align max_message)
        × ((y : ℕ) → y < memory → m' y ≡ m y)
  unfolding allocator_create
  create-IsValid hp hm hr = (
    created,
    ground (arith, initialise_lem),
    created-IsValid,
    created_header.0,
    created_header.1,
    created_header.2,
    created_below,
  )
