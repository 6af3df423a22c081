-- ===== src/Allocator/RunTests.antt =====
-- Runs on the small regions: what is said of all blocks and of all orders of calls
-- (src/shmem/allocator.c), at one of them.
use libkrossbar.Prelude.{ℕ, ◌≡◌, ◌⊎◌, refl, [], ◌∷◌, arith}
use libkrossbar.Memory.{Memory, write, ok, null}
use libkrossbar.Allocator.Fields.{free, allocated}
use libkrossbar.Allocator.Layout.{block}
use libkrossbar.Allocator.Released.{Released, free-Released}
use libkrossbar.Allocator.Runs.{IsHealthy}
use libkrossbar.Allocator.Answers.{Answered, alloc-Answered}
use libkrossbar.Allocator.Bounds.{IsRoom, alloc-IsRoom}
use libkrossbar.Allocator.{allocator_alloc}
use libkrossbar.Allocator.Tests.{region, half, half-IsValid, middle, middle-IsValid}

free-Released_example :
    Released region middle 2000 10 1184 144
      (block 144 free ∷ block 144 free ∷ block 672 allocated ∷ [])
free-Released_example =
    free-Released region middle 2000 144 672 allocated [] (1040 ∷ []) refl 10 (omega arith)
      (block 144 free ∷ []) 1184 middle-IsValid (middle-IsValid.tiled.0, refl)

abbrev half-IsHealthy : IsHealthy region 2000 half
half-IsHealthy = record {
  blocks = block 144 allocated ∷ block 816 free ∷ [];
  list = 1184 ∷ [];
  valid = half-IsValid;
  configured = record { aligned = refl; positive = omega arith; small = omega arith };
  unlocked = refl;
}

abbrev written : Memory
written = write half 1064 7

alloc-Answered_example :
    Answered region 2000 2000 half (block 144 allocated ∷ block 816 free ∷ []) (1184 ∷ [])
alloc-Answered_example = alloc-Answered region 2000 half half-IsHealthy 2000 (omega arith)

alloc-IsRoom_example :
    (y : ℕ) × (m' : Memory) × (allocator_alloc 2000 region half ≡ ok y m')
    × ((y ≡ null) ⊎ IsRoom region 2000 half y)
alloc-IsRoom_example = alloc-IsRoom region 2000 half half-IsHealthy 2000 (omega arith)
