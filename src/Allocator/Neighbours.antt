-- ===== src/Allocator/Neighbours.antt =====
-- How `allocator_free` finds the free neighbours of a block (src/shmem/allocator.c).
use libkrossbar.Prelude.{ℕ, ◌+◌, ◌-◌, ◌≤◌, ◌≡◌, List, [], ◌∷◌, ◌++◌, arith, ◌==◌, if◌then◌else◌}
use libkrossbar.Memory.{Memory, ok, aborted, null}
use libkrossbar.Allocator.Fields.{BlockType, Allocator, free, allocated, code, next_free_of}
use libkrossbar.Allocator.{
  block_offset, offset_to_block, prev_adjacent_free_block, next_adjacent_free_block,
}
use libkrossbar.Allocator.FreeList.{offset_to_block_lem}
use libkrossbar.Allocator.Layout.{Block, block, Tiled, Tiled-le}
use libkrossbar.Allocator.Validity.{first_block, IsValid, back, block_bounds}

-- In front of the first block, where a footer would stand, lie the header's largest message size
-- and the offset that heads the free list.
pub prev_adjacent_first :
    (a : Allocator) (m : Memory)
    → m (next_free_of a) ≡ 40
    → prev_adjacent_free_block a (first_block a) m ≡ ok null m
unfolding prev_adjacent_free_block
prev_adjacent_first a m h = ground (arith, same, h)
  where
    same : first_block a - 16 + 8 ≡ next_free_of a
    same = omega arith

module _ (a : Allocator) (m : Memory) (e : ℕ) (before after : List Block) (fs : List ℕ) (y r : ℕ)
    (type : BlockType) (v : IsValid a m e (before ++ (block r type ∷ after)) fs)
    (front : Tiled a m (first_block a) before y) where
  here : Tiled a m y (block r type ∷ after) e
  here = back a m e before after fs y (block r type) v front

  within : (first_block a ≤ y) × (y + r ≤ e)
  within = block_bounds a m e before after fs y (block r type) v front

  -- The block in front of `y + r` is found by its footer, if it is free.
  pub prev_adjacent_free : type ≡ free → prev_adjacent_free_block a (y + r) m ≡ ok y m
  unfolding prev_adjacent_free_block block_offset
  prev_adjacent_free is = ground (
    arith,
    is,
    here.0.big,
    here.0.aligned,
    here.0.footer_size,
    here.0.footer_type,
    within,
    v.ends,
    v.fits,
    offset_to_block_lem a m (y - a.header),
  )

  pub prev_adjacent_allocated : type ≡ allocated → prev_adjacent_free_block a (y + r) m ≡ ok null m
  unfolding prev_adjacent_free_block
  prev_adjacent_allocated is = ground (arith, is, here.0.footer_type, within)

module _ (a : Allocator) (m : Memory) (e : ℕ) (before after : List Block) (fs : List ℕ) (x s t : ℕ)
    (ty type : BlockType) (v : IsValid a m e (before ++ (block s ty ∷ block t type ∷ after)) fs)
    (front : Tiled a m (first_block a) before x) where
  placed : Tiled a m x (block s ty ∷ block t type ∷ after) e
  placed = back a m e before (block t type ∷ after) fs x (block s ty) v front

  bounds : (first_block a ≤ x) × (x + s + t ≤ e)
  bounds =
      (Tiled-le a m x (first_block a) before front, Tiled-le a m e (x + s + t) after placed.1.1)

  -- The block behind `x` is found by the size of `x`, if it is free.
  pub next_adjacent_lem :
      next_adjacent_free_block a x m ≡ ok (if code type == 0 then x + s else null) m
  unfolding next_adjacent_free_block block_offset
  next_adjacent_lem = ground (
    arith,
    placed.0.big,
    placed.0.size_tag,
    placed.1.0.big,
    placed.1.0.aligned,
    placed.1.0.type_tag,
    bounds,
    v.ends,
    v.fits,
    offset_to_block_lem a m (x - a.header + s),
  )

-- Behind the last block there is nothing to look at: its end lies outside the offsets that
-- `allocator_offset_to_block` asserts.
pub next_adjacent_end :
    (a : Allocator) (m : Memory) (e : ℕ) (before : List Block) (fs : List ℕ) (x : ℕ) (b : Block)
    → IsValid a m e (before ++ (b ∷ [])) fs
    → Tiled a m (first_block a) before x
    → next_adjacent_free_block a x m ≡ aborted
unfolding next_adjacent_free_block block_offset offset_to_block
next_adjacent_end a m e before fs x b v front = ground (
  arith,
  placed,
  placed.0.big,
  placed.0.size_tag,
  v.ends,
  v.fits,
  Tiled-le a m x (first_block a) before front,
)
  where
    placed : Tiled a m x (b ∷ []) e
    placed = back a m e before [] fs x b v front
