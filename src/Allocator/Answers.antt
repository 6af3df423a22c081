-- ===== src/Allocator/Answers.antt =====
-- `allocator_alloc` comes to an answer (src/shmem/allocator.c).
use libkrossbar.Prelude.{ℕ, ◌≤◌, ◌<◌, ◌≡◌, inl, inr, ◌⊎◌, true, List, length}
use libkrossbar.Memory.{Memory, ok, null}
use libkrossbar.Allocator.Fields.{Allocator}
use libkrossbar.Allocator.{allocator_alloc}
use libkrossbar.Allocator.FreeList.{has}
use libkrossbar.Allocator.Layout.{Block}
use libkrossbar.Allocator.Requests.{IsConfigured-same, need, Took, alloc-null, alloc-Took}
use libkrossbar.Allocator.Fuel.{enough_fuel}
use libkrossbar.Allocator.Runs.{IsHealthy, large_or_not}

-- What a request comes to: a block that was free, or `NULL` and the mapping as it was.
abbrev pub Answered : Allocator → (e fuel : ℕ) → (m : Memory) → List Block → List ℕ → Type 0
Answered a e fuel m bs fs =
    ((f : ℕ) → has f fs ≡ true → m f < need a m) × (allocator_alloc fuel a m ≡ ok null m)
    ⊎ ((y : ℕ) × (m' : Memory) × (allocator_alloc fuel a m ≡ ok y m')
        × Took a m e bs fs (need a m) y m'
        × IsHealthy a e m')

-- `allocator_alloc` on a region between two calls, with fuel for as many steps as the region's end
-- is high, returns. Either no listed block is large enough, it is `NULL` and the mapping is as it
-- was, or it is the payload of a block that was free and large enough, and the region is healthy
-- again.
pub alloc-Answered :
    (a : Allocator) (e : ℕ) (m : Memory) (h : IsHealthy a e m) (fuel : ℕ)
    → e ≤ fuel
    → Answered a e fuel m h.blocks h.list
alloc-Answered a e m h fuel le =
    let enough : length h.list < fuel = enough_fuel a m e h.blocks h.list fuel h.valid le in
    elim (large_or_not m (need a m) h.list) [
      | inl all ↦
          inl
            (all, alloc-null a m e h.blocks h.list h.valid h.configured h.unlocked fuel enough all)
      | inr (g, i, l) ↦
          let (y, m', run, took) =
            alloc-Took a m e h.blocks h.list h.valid h.configured h.unlocked fuel enough g i l in
          inr (
            y,
            m',
            run,
            took,
            record {
              blocks = _;
              list = _;
              valid = took.valid;
              configured = IsConfigured-same a m m' took.configured h.configured;
              unlocked = took.unlocked;
            },
          )
    ]
