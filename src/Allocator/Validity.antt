-- ===== src/Allocator/Validity.antt =====
-- The invariant of the allocator of src/shmem/allocator.c.
use libkrossbar.Prelude.{
  ℕ, ◌+◌, ◌≤◌, ◌<◌, ◌≡◌, ◌⊎◌, inl, inr, true, ◌||◌, List, [], ◌∷◌, ◌++◌, arith, ◌^◌, ◌∙◌,
}
use libkrossbar.Memory.{Memory, write}
use libkrossbar.Allocator.Fields.{Allocator, total_size_of, next_free_of}
use libkrossbar.Allocator.FreeList.{has, Chain, link_of}
use libkrossbar.Allocator.Layout.{
  Block, HasBlock, Tiled, Tiled-le, Tiled-frame, Tiled-write, Tiled-append, Tiled-drop, frees,
  frees-bounds, has-frees-append, Spares, Spares-left, Spares-next, Spares-take, Spares-drop,
}
use libkrossbar.Allocator.Unlink.{Distinct, Outside, Apart, link_of-cases}

-- where the first block stands
abbrev pub first_block : Allocator → ℕ
first_block a = a.header + 40

-- The blocks `bs` fill the region up to `e`, and the free list leads through `fs`, which are the
-- free blocks among them, each once.
pub record IsValid (a : Allocator) (m : Memory) (e : ℕ) (bs : List Block) (fs : List ℕ)
    : Type 0 where
  pub header_pos : 0 < a.header
  pub ends : first_block a + m (total_size_of a) ≡ e
  pub fits : e < 2 ^ 64
  pub tiled : Tiled a m (first_block a) bs e
  pub chain : Chain a m (m (next_free_of a)) fs
  pub listed : (x : ℕ) → has x fs ≡ has x (frees (first_block a) bs)
  pub distinct : Distinct fs

module _ (a : Allocator) (m : Memory) (e : ℕ) (before after : List Block) (fs : List ℕ) (x : ℕ)
    (b : Block) (v : IsValid a m e (before ++ (b ∷ after)) fs)
    (front : Tiled a m (first_block a) before x) where
  pub back : Tiled a m x (b ∷ after) e
  back = Tiled-drop a m e (first_block a) before (b ∷ after) x front v.tiled

  pub block_bounds : (first_block a ≤ x) × (x + b.size ≤ e)
  block_bounds =
      (Tiled-le a m x (first_block a) before front, Tiled-le a m e (x + b.size) after back.1)

  pub listed_at :
      (y : ℕ) → has y fs ≡ (has y (frees (first_block a) before) || has y (frees x (b ∷ after)))
  listed_at y = v.listed y ∙ has-frees-append a m x y (first_block a) before (b ∷ after) x front

  -- A free block that is not the one at `x` lies before it or behind it.
  pub free_apart :
      (f : ℕ) → has f fs ≡ true → (first_block a ≤ f) × ((f ≡ x) ⊎ (f + 48 ≤ x) ⊎ (x + b.size ≤ f))
  free_apart f i = ground (
    arith,
    listed_at f,
    block_bounds,
    frees-bounds a m x f (first_block a) before front,
    frees-bounds a m e f (x + b.size) after back.1,
  )

-- A write to the free list's head or to a `next_free_block_offset` of a listed block changes no tag.
pub link-Spares :
    (a : Allocator) (m : Memory) (e : ℕ) (bs : List Block) (fs : List ℕ) (x : ℕ)
    → IsValid a m e bs fs
    → Spares (link_of (next_free_of a) fs x) (first_block a) bs
link-Spares a m e bs fs x v = elim (link_of-cases a m x 0 (next_free_of a) fs) [
  | inl q ↦ rw q (Spares-left a m e _ _ bs v.tiled (omega arith))
  | inr (g, i, q) ↦ rw q (Spares-next a m e g _ bs v.tiled (rw (v.listed g) at i))
]

pub Apart-bounds :
    (low x s : ℕ) (fs : List ℕ)
    → ((f : ℕ) → has f fs ≡ true → (low ≤ f) × ((f ≡ x) ⊎ (f + 48 ≤ x) ⊎ (x + s ≤ f)))
    → Apart low x s fs
Apart-bounds low x s [] h = tt
Apart-bounds low x s (f ∷ fs) h =
    let here = h f (ground arith) in
    (here.0, here.1, Apart-bounds low x s fs λ g i. h g (ground arith))

-- The blocks around `x` after a change that is, outside `x`, a single write to no tag.
pub Tiled-around :
    (a : Allocator) (m m' : Memory) (e : ℕ) (before after : List Block) (x : ℕ) (b b' : Block)
    (q w : ℕ)
    → Tiled a m (first_block a) before x
    → Tiled a m x (b ∷ after) e
    → Spares q (first_block a) (before ++ (b ∷ after))
    → ((y : ℕ) → Outside x b.size y → m' y ≡ write m q w y)
    → HasBlock a m' x b'
    → b'.size ≡ b.size
    → Tiled a m' (first_block a) (before ++ (b' ∷ after)) e
Tiled-around a m m' e before after x b b' q w front back s same here size =
    Tiled-append a m' e (first_block a) before (b' ∷ after) x
      (Tiled-frame a (write m q w) x m' (first_block a) before
        (Tiled-write a m x q w (first_block a) before front
          (Spares-take a m x q (first_block a) before (b ∷ after) s))
        λ y lo hi. same y (inl hi))
      (
        here,
        rw size (
            Tiled-frame a (write m q w) e m' (x + b.size) after
              (Tiled-write a m e q w (x + b.size) after back.1
                ((Spares-drop a m e q (first_block a) before (b ∷ after) x front s).1))
              λ y lo hi. same y (inr lo)),
      )
