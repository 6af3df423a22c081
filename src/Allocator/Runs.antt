-- ===== src/Allocator/Runs.antt =====
-- Runs of the allocator (src/shmem/allocator.c): requests, releases and trims in any order, with the
-- owners of the blocks writing to their payloads in between.
use libkrossbar.Prelude.{
  ℕ, ◌+◌, ◌^◌, ◌≤◌, ◌<◌, ◌≡◌, ◌⊎◌, inl, inr, true, List, [], ◌∷◌, ◌++◌, arith, ltb, Bool-cases,
}
use libkrossbar.Memory.{Memory, Run, ok, aborted, blocked, out_of_fuel, write}
use libkrossbar.Allocator.Fields.{BlockType, Allocator, allocated, futex_of}
use libkrossbar.Allocator.{allocator_alloc, allocator_free, allocator_trim}
use libkrossbar.Allocator.FreeList.{has}
use libkrossbar.Allocator.Layout.{Block, block, Tiled}
use libkrossbar.Allocator.Validity.{first_block, IsValid}
use libkrossbar.Allocator.Payload.{in_payload}
use libkrossbar.Allocator.Requests.{IsConfigured}

-- Between two calls: the region is valid, configured and unlocked.
pub record IsHealthy (a : Allocator) (e : ℕ) (m : Memory) : Type 0 where
  pub blocks : List Block
  pub list : List ℕ
  pub valid : IsValid a m e blocks list
  pub configured : IsConfigured a m
  pub unlocked : m (futex_of a) ≡ 0

-- One call, or one word written by the owner of a block. What a call is given is a block's payload:
-- one that is allocated and, for a release, not the last of the region.
pub data Step (a : Allocator) (e : ℕ) : Memory → Memory → Type 0 where
  allocates :
      {m m' : Memory} (fuel y : ℕ) → e ≤ fuel → allocator_alloc fuel a m ≡ ok y m' → Step a e m m'
  frees :
      {m m' : Memory} (fuel x s t : ℕ) (type : BlockType) (before after : List Block) (fs : List ℕ)
      → e ≤ fuel
      → IsValid a m e (before ++ (block s allocated ∷ block t type ∷ after)) fs
      → Tiled a m (first_block a) before x
      → allocator_free fuel a (x + 24) m ≡ ok tt m'
      → Step a e m m'
  trims :
      {m m' : Memory} (x s n : ℕ) (before after : List Block) (fs : List ℕ)
      → IsValid a m e (before ++ (block s allocated ∷ after)) fs
      → Tiled a m (first_block a) before x
      → 0 < n
      → n + 160 < 2 ^ 64
      → allocator_trim a (x + 24) n m ≡ ok tt m'
      → Step a e m m'
  writes :
      {m : Memory} (y w : ℕ) (bs : List Block) (fs : List ℕ)
      → IsValid a m e bs fs
      → in_payload y (first_block a) bs ≡ true
      → Step a e m (write m y w)

pub data Steps (a : Allocator) (e : ℕ) (m : Memory) : Memory → Type 0 where
  start : Steps a e m m
  later : {u w : Memory} → Steps a e m u → Step a e u w → Steps a e m w

-- Either no listed block is large enough, or one is.
pub large_or_not :
    (m : Memory) (n : ℕ) (fs : List ℕ)
    → ((f : ℕ) → has f fs ≡ true → m f < n) ⊎ ((g : ℕ) × (has g fs ≡ true) × (n ≤ m g))
large_or_not m n [] = inl λ f i. absurd (cc)
large_or_not m n (f ∷ fs) = elim (Bool-cases (ltb (m f) n)) [
  | inr big ↦ inr (f, ground arith, ground arith)
  | inl small ↦ elim (large_or_not m n fs) [
    | inr (g, i, l) ↦ inr (g, ground arith, l)
    | inl all ↦ inl λ g i. ground (arith, all g)
  ]
]

-- The memory after a run that has come through.
memory_of : {A : Type 0} → Memory → Run A → Memory
memory_of d (ok x m) = m
memory_of d aborted = d
memory_of d blocked = d
memory_of d out_of_fuel = d
