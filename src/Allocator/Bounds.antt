-- ===== src/Allocator/Bounds.antt =====
-- Where the memory that `allocator_alloc` hands out lies (src/shmem/allocator.c).
use libkrossbar.Prelude.{ℕ, ◌+◌, ◌-◌, ◌%◌, ◌≤◌, ◌≡◌, refl, ◌⊎◌, inl, inr, ◌++◌, List, arith}
use libkrossbar.Memory.{Memory, ok, null, alignment}
use libkrossbar.Allocator.Fields.{Allocator, allocated, max_message_size_of}
use libkrossbar.Allocator.{allocator_alloc}
use libkrossbar.Allocator.Layout.{Block, block, Tiled, Tiled-front}
use libkrossbar.Allocator.Validity.{first_block, back, block_bounds}
use libkrossbar.Allocator.Split.{kept_size, cut_off}
use libkrossbar.Allocator.Requests.{need, Took}
use libkrossbar.Allocator.Runs.{IsHealthy}
use libkrossbar.Allocator.Answers.{alloc-Answered}

-- `y` is aligned, and a largest message at `y` lies in the region, in front of a footer.
abbrev pub IsRoom : Allocator → (e : ℕ) → Memory → (y : ℕ) → Type 0
IsRoom a e m y =
    ((y - a.header) % alignment ≡ 0)
    × (first_block a + 24 ≤ y)
    × (y + m (max_message_size_of a) + 16 ≤ e)

module _ (a : Allocator) (e : ℕ) (m m' : Memory) (bs : List Block) (fs : List ℕ) (y : ℕ)
    (t : Took a m e bs fs (need a m) y m') where
  abbrev taken_block : Block
  taken_block = block (kept_size t.size (need a m)) allocated

  abbrev behind : List Block
  behind = cut_off t.size (need a m) ++ t.after

  front : Tiled a m' (first_block a) t.before t.at
  front = Tiled-front a m m' (first_block a) e t.at t.before _ t.stands t.valid.tiled

  Took-IsRoom : IsRoom a e m y
  Took-IsRoom =
      let stands = back a m' e t.before behind _ t.at taken_block t.valid front in
      let bounds = block_bounds a m' e t.before behind _ t.at taken_block t.valid front in
      let wide : need a m ≤ kept_size t.size (need a m) = ground (arith, t.large) in
      (
        omega (arith, t.payload, stands.0.aligned, bounds),
        omega (arith, t.payload, bounds),
        omega (arith, t.payload, bounds, wide),
      )

-- `allocator_alloc` on a region between two calls, with fuel for as many steps as the region's end
-- is high, returns `NULL`, or an aligned address behind the first block's header at which a largest
-- message and a footer fit the region.
pub alloc-IsRoom :
    (a : Allocator) (e : ℕ) (m : Memory)
    → IsHealthy a e m
    → (fuel : ℕ) → e ≤ fuel
    → (y : ℕ) × (m' : Memory) × (allocator_alloc fuel a m ≡ ok y m') × ((y ≡ null) ⊎ IsRoom a e m y)
alloc-IsRoom a e m h fuel le = elim (alloc-Answered a e m h fuel le) [
  | inl (all, run) ↦ (null, m, run, inl refl)
  | inr (y, m', run, took, h') ↦ (y, m', run, inr (Took-IsRoom a e m m' h.blocks h.list y took))
]
