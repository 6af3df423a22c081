-- ===== src/Allocator/Tests.antt =====
-- Small regions for the functions of src/shmem/allocator.c: the header stands at 1000, the first
-- block at 1040, and the region ends at 2000.
use libkrossbar.Prelude.{ℕ, ◌≡◌, refl, inl, List, [], ◌∷◌, arith, ◌==◌, if◌then◌else◌}
use libkrossbar.Memory.{Memory, ok, aborted, null, null_offset}
use libkrossbar.Allocator.{allocator_alloc, allocator_free, allocator_trim}
use libkrossbar.Allocator.Fields.{Allocator, free, allocated}
use libkrossbar.Allocator.Layout.{block}
use libkrossbar.Allocator.Validity.{IsValid}
use libkrossbar.Allocator.Trim.{Trimmed, trim-split}
use libkrossbar.Allocator.Requests.{IsConfigured, Took, alloc-null, alloc-Took}
use libkrossbar.Allocator.Release.{Freed, free-joins, free-last}

abbrev pub zeros : Memory
zeros = λ _. 0

abbrev pub region : Allocator
region = record { header = 1000 }

-- The words of a list, 0 elsewhere.
abbrev pub words : List (ℕ × ℕ) → Memory
words [] a = 0
words ((p, v) ∷ rest) a = if a == p then v else words rest a

-- One free block.
abbrev empty : Memory
empty = words (
    (1008, 960)
    ∷ (1016, 960)
    ∷ (1024, 104)
    ∷ (1032, 40)
    ∷ (1040, 960)
    ∷ (1056, null_offset)
    ∷ (1984, 960)
    ∷ [])

empty-IsValid : IsValid region empty 2000 (block 960 free ∷ []) (1040 ∷ [])
empty-IsValid = record {
  header_pos = omega arith;
  ends = refl;
  fits = omega arith;
  tiled = (
    record {
      big = omega arith;
      aligned = refl;
      size_tag = refl;
      type_tag = refl;
      footer_size = refl;
      footer_type = refl;
    },
    refl,
  );
  chain = (ground arith, refl, refl, refl);
  listed = λ y. refl;
  distinct = (refl, tt);
}

-- One allocated block.
abbrev full : Memory
full = words (
    (1008, 960)
    ∷ (1024, 104)
    ∷ (1032, null_offset)
    ∷ (1040, 960)
    ∷ (1048, 1)
    ∷ (1984, 960)
    ∷ (1992, 1)
    ∷ [])

full-IsValid : IsValid region full 2000 (block 960 allocated ∷ []) ([])
full-IsValid = record {
  header_pos = omega arith;
  ends = refl;
  fits = omega arith;
  tiled = (
    record {
      big = omega arith;
      aligned = refl;
      size_tag = refl;
      type_tag = refl;
      footer_size = refl;
      footer_type = refl;
    },
    refl,
  );
  chain = refl;
  listed = λ y. refl;
  distinct = tt;
}

-- An allocated block before a free one.
abbrev pub half : Memory
half = words (
    (1008, 960)
    ∷ (1016, 816)
    ∷ (1024, 104)
    ∷ (1032, 184)
    ∷ (1040, 144)
    ∷ (1048, 1)
    ∷ (1168, 144)
    ∷ (1176, 1)
    ∷ (1184, 816)
    ∷ (1200, null_offset)
    ∷ (1984, 816)
    ∷ [])

pub half-IsValid : IsValid region half 2000 (block 144 allocated ∷ block 816 free ∷ []) (1184 ∷ [])
half-IsValid = record {
  header_pos = omega arith;
  ends = refl;
  fits = omega arith;
  tiled = (
    record {
      big = omega arith;
      aligned = refl;
      size_tag = refl;
      type_tag = refl;
      footer_size = refl;
      footer_type = refl;
    },
    (
      record {
        big = omega arith;
        aligned = refl;
        size_tag = refl;
        type_tag = refl;
        footer_size = refl;
        footer_type = refl;
      },
      refl,
    ),
  );
  chain = (ground arith, refl, refl, refl);
  listed = λ y. refl;
  distinct = (refl, tt);
}

-- An allocated block between a free one and an allocated one.
abbrev pub middle : Memory
middle = words (
    (1008, 960)
    ∷ (1016, 144)
    ∷ (1024, 104)
    ∷ (1032, 40)
    ∷ (1040, 144)
    ∷ (1056, null_offset)
    ∷ (1168, 144)
    ∷ (1184, 144)
    ∷ (1192, 1)
    ∷ (1312, 144)
    ∷ (1320, 1)
    ∷ (1328, 672)
    ∷ (1336, 1)
    ∷ (1984, 672)
    ∷ (1992, 1)
    ∷ [])

pub middle-IsValid :
    IsValid region middle 2000
      (block 144 free ∷ block 144 allocated ∷ block 672 allocated ∷ [])
      (1040 ∷ [])
middle-IsValid = record {
  header_pos = omega arith;
  ends = refl;
  fits = omega arith;
  tiled = (
    record {
      big = omega arith;
      aligned = refl;
      size_tag = refl;
      type_tag = refl;
      footer_size = refl;
      footer_type = refl;
    },
    (
      record {
        big = omega arith;
        aligned = refl;
        size_tag = refl;
        type_tag = refl;
        footer_size = refl;
        footer_type = refl;
      },
      (
        record {
          big = omega arith;
          aligned = refl;
          size_tag = refl;
          type_tag = refl;
          footer_size = refl;
          footer_type = refl;
        },
        refl,
      ),
    ),
  );
  chain = (ground arith, refl, refl, refl);
  listed = λ y. refl;
  distinct = (refl, tt);
}

empty-IsConfigured : IsConfigured region empty
empty-IsConfigured = record { aligned = refl; positive = omega arith; small = omega arith }

full-IsConfigured : IsConfigured region full
full-IsConfigured = record { aligned = refl; positive = omega arith; small = omega arith }

alloc-Took_example :
    (y : ℕ) × (m' : Memory) × (allocator_alloc 10 region empty ≡ ok y m')
    × Took region empty 2000 (block 960 free ∷ []) (1040 ∷ []) 144 y m'
alloc-Took_example =
    alloc-Took region empty 2000 (block 960 free ∷ []) (1040 ∷ []) empty-IsValid empty-IsConfigured
      refl 10 (omega arith) 1040 refl (omega arith)

alloc-null_example : allocator_alloc 10 region full ≡ ok null full
alloc-null_example =
    alloc-null region full 2000 (block 960 allocated ∷ []) [] full-IsValid full-IsConfigured refl 10
      (omega arith) (λ f i. absurd (cc))

free-joins_example :
    (m' : Memory) × (allocator_free 10 region 1208 middle ≡ ok tt m')
    × Freed region middle 2000 144 (block 288 free ∷ block 672 allocated ∷ []) m'
free-joins_example =
    free-joins region middle 2000 [] [] (1040 ∷ []) 1040 144 144 672 allocated 10 middle-IsValid
      refl refl (omega arith)

free-last_example : allocator_free 10 region 1064 full ≡ aborted
free-last_example =
    free-last region full 2000 [] [] [] 1040 960 full-IsValid refl refl 10 refl (inl refl)

trim-split_example :
    (m' : Memory) × (allocator_trim region 1064 16 full ≡ ok tt m')
    × Trimmed region full 2000 (block 56 allocated ∷ block 904 free ∷ []) (1096 ∷ []) m'
trim-split_example =
    trim-split region full 2000 [] [] [] 1040 960 16 full-IsValid refl refl (omega arith)
      (omega arith) (omega arith)
