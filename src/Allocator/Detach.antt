-- ===== src/Allocator/Detach.antt =====
-- `allocator_remove_free_block` keeps the invariant (src/shmem/allocator.c).
use libkrossbar.Prelude.{
  ℕ, ◌+◌, ◌≤◌, ◌<◌, ◌≡◌, refl, inl, true, List, ◌∷◌, ◌++◌, arith, length, ◌∙◌,
}
use libkrossbar.Memory.{Memory, ok}
use libkrossbar.Allocator.Fields.{Allocator, free, allocated, total_size_of, next_free_of}
use libkrossbar.Allocator.{remove_free_block}
use libkrossbar.Allocator.FreeList.{
  has, link_of, unlinked, remove_free_block-Chain, unlink_block_lem,
}
use libkrossbar.Allocator.Layout.{Block, block, HasBlock, Tiled, frees-bounds, has-frees-append}
use libkrossbar.Allocator.Unlink.{
  remove, has-remove, remove-Distinct, Outside, Apart, Chain-unlinked, unlinked-write, unlinked_ne,
  unlinked-HasBlock, link_of-Outside,
}
use libkrossbar.Allocator.Payload.{in_payload, payload-link, payload-Outside}
use libkrossbar.Allocator.Validity.{
  first_block, IsValid, back, block_bounds, listed_at, free_apart, link-Spares, Apart-bounds,
  Tiled-around,
}

module _ (a : Allocator) (m : Memory) (e : ℕ) (before after : List Block) (fs : List ℕ) (x s : ℕ)
    (v : IsValid a m e (before ++ (block s free ∷ after)) fs)
    (front : Tiled a m (first_block a) before x) where
  here : HasBlock a m x (block s free)
  here = (back a m e before after fs x (block s free) v front).0

  member : has x fs ≡ true
  member = ground (arith, listed_at a m e before after fs x (block s free) v front x)

  abbrev link : ℕ
  link = link_of (next_free_of a) fs x

  pub detached : Memory
  detached = unlinked m link x

  apart : Apart (first_block a) x s fs
  apart = Apart-bounds _ x s fs (free_apart a m e before after fs x (block s free) v front)

  low : first_block a ≤ x
  low = (block_bounds a m e before after fs x (block s free) v front).0

  head : a.header + 16 + 16 ≡ a.header + 32
  head = omega arith

  link-Outside : Outside x s link × (a.header + 32 ≤ link)
  link-Outside = rw head at (
      link_of-Outside a m x s (a.header + 16) (first_block a) (a.header + 16) fs (omega arith)
        (omega arith) (inl (omega (arith, low))) apart member here.big)

  pub remove_free_block_lem :
      (fuel : ℕ) → length fs ≤ fuel → remove_free_block fuel a x m ≡ ok tt detached
  unfolding detached
  remove_free_block_lem fuel h =
      remove_free_block-Chain a m fuel x fs v.header_pos v.chain member h (omega (arith, low))
      ∙ unlink_block_lem a m link x (omega (arith, low))
          (ground (arith, link-Outside, here.big, low)) (omega (arith, here.big, here.size_tag))

  pub detached-IsValid : IsValid a detached e (before ++ (block s allocated ∷ after)) (remove x fs)
  unfolding detached
  detached-IsValid = record {
    header_pos = v.header_pos;
    ends = ground (
      arith,
      unlinked_ne m link x s here.size_tag here.big link-Outside.0 (total_size_of a),
      link-Outside,
      low,
      v.ends,
    );
    fits = v.fits;
    tiled =
        Tiled-around a m detached e before after x (block s free) (block s allocated) link
          (m (x + 16)) front (back a m e before after fs x (block s free) v front)
          (link-Spares a m e _ fs x v)
          (unlinked-write m link x s here.size_tag here.big link-Outside.0)
          (unlinked-HasBlock m link x s here.size_tag here.big link-Outside.0 a here) refl;
    chain = rw head at (
        Chain-unlinked a m x s here.size_tag here.big low (a.header + 16) fs (omega arith)
          (inl (omega (arith, low))) (rw head v.chain) apart v.distinct
          (ground
            (arith, free_apart a m e before after fs x (block s free) v front (a.header + 16)))
          member);
    listed = λ y. ground (
      arith,
      has-remove y x fs v.distinct,
      here.big,
      listed_at a m e before after fs x (block s free) v front y,
      has-frees-append a m x y (first_block a) before (block s allocated ∷ after) x front,
      frees-bounds a m x y (first_block a) before front,
      frees-bounds a m e y (x + s) after (back a m e before after fs x (block s free) v front).1,
    );
    distinct = remove-Distinct x fs v.distinct;
  }

  pub detached_header : (y : ℕ) → y < a.header + 32 → detached y ≡ m y
  unfolding detached
  detached_header y h =
      unlinked_ne m link x s here.size_tag here.big link-Outside.0 y (ground (arith, link-Outside))
        (inl (omega (arith, low)))

  pub detached_payload :
      (y : ℕ)
      → in_payload y (first_block a) (before ++ (block s free ∷ after)) ≡ true
      → detached y ≡ m y
  unfolding detached
  detached_payload y h =
      unlinked_ne m link x s here.size_tag here.big link-Outside.0 y
        (payload-link a m e before after fs x s v front y h)
        (payload-Outside a m e before after fs x s v front y h)
