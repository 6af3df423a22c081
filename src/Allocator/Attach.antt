-- ===== src/Allocator/Attach.antt =====
-- `allocator_add_free_block` gives a block that is in no list back to the free list, and keeps the
-- invariant (src/shmem/allocator.c).
use libkrossbar.Prelude.{
  ℕ, ◌+◌, ◌-◌, ◌%◌, ◌^◌, ◌≤◌, ◌<◌, ◌≡◌, refl, ◌≢◌, ◌⊎◌, inl, inr, true, ◌||◌, List, ◌∷◌, ◌++◌,
  arith,
}
use libkrossbar.Memory.{Memory, write, ok, alignment}
use libkrossbar.Allocator.Fields.{Allocator, free, allocated, total_size_of, next_free_of, next_of}
use libkrossbar.Allocator.{add_free_block, block_offset}
use libkrossbar.Allocator.Tags.{
  tagged, write_block_tags_lem, tagged_ne, tagged_size, tagged_type, tagged_footer_size,
  tagged_footer_type,
}
use libkrossbar.Allocator.FreeList.{has, Chain}
use libkrossbar.Allocator.Layout.{
  Block, block, HasBlock, Tiled, Tiled-le, Tiled-frame, Tiled-append, frees, frees-bounds,
  has-frees-append,
}
use libkrossbar.Allocator.Unlink.{Distinct, Outside, Chain-frame}
use libkrossbar.Allocator.Validity.{first_block, IsValid, back, listed_at}

-- A valid state but for the block of `s` bytes at `x`: it is in no list, and of its tags only the
-- size in the header is known.
pub record IsPending (a : Allocator) (m : Memory) (e : ℕ) (before : List Block) (x s : ℕ)
    (after : List Block) (fs : List ℕ) : Type 0 where
  pub header_pos : 0 < a.header
  pub ends : first_block a + m (total_size_of a) ≡ e
  pub fits : e < 2 ^ 64
  pub front : Tiled a m (first_block a) before x
  pub big : 48 ≤ s
  pub aligned : (x - a.header) % alignment ≡ 0
  pub size_tag : m x ≡ s
  pub back : Tiled a m (x + s) after e
  pub chain : Chain a m (m (next_free_of a)) fs
  pub listed :
      (y : ℕ) → has y fs ≡ (has y (frees (first_block a) before) || has y (frees (x + s) after))
  pub distinct : Distinct fs

-- An allocated block of a valid state is in no list.
pub IsPending_of_IsValid :
    (a : Allocator) (m : Memory) (e : ℕ) (before after : List Block) (fs : List ℕ) (x s : ℕ)
    → IsValid a m e (before ++ (block s allocated ∷ after)) fs
    → Tiled a m (first_block a) before x
    → IsPending a m e before x s after fs
IsPending_of_IsValid a m e before after fs x s v front =
    let here = back a m e before after fs x (block s allocated) v front in
    record {
      header_pos = v.header_pos;
      ends = v.ends;
      fits = v.fits;
      front = front;
      big = here.0.big;
      aligned = here.0.aligned;
      size_tag = here.0.size_tag;
      back = here.1;
      chain = v.chain;
      listed = listed_at a m e before after fs x (block s allocated) v front;
      distinct = v.distinct;
    }

-- The memory after `allocator_add_free_block`.
pub added : Allocator → Memory → ℕ → Memory
added a m x =
    let m' = tagged m x (m x) free in
    write (write m' (next_of x) (m' (next_free_of a))) (next_free_of a) (block_offset a x)

module _ (a : Allocator) (m : Memory) (e : ℕ) (before : List Block) (x s : ℕ) (after : List Block)
    (fs : List ℕ) (p : IsPending a m e before x s after fs) where
  pub bounds : (first_block a ≤ x) × (x + s ≤ e)
  bounds = (Tiled-le a m x (first_block a) before p.front, Tiled-le a m e (x + s) after p.back)

  pub add_free_block_lem : add_free_block a x m ≡ ok tt (added a m x)
  unfolding add_free_block added
  add_free_block_lem =
      ground (arith, write_block_tags_lem m x (m x) free, p.size_tag, p.big, bounds)

  pub added_ne : (y : ℕ) → y ≢ next_free_of a → Outside x s y → added a m x y ≡ m y
  unfolding added write
  added_ne y ne o = ground (arith, p.size_tag, p.big, bounds, tagged_ne m x (m x) free y)

  -- The footer and the header's first two words are as the tags left them.
  added-tagged :
      (y : ℕ) → (y ≡ x) ⊎ (y ≡ x + 8) ⊎ (x + 24 ≤ y) → added a m x y ≡ tagged m x s free y
  unfolding added write
  added-tagged y h = ground (arith, p.size_tag, bounds)

  added-HasBlock : HasBlock a (added a m x) x (block s free)
  added-HasBlock = record {
    big = p.big;
    aligned = p.aligned;
    size_tag = rw (added-tagged x (inl refl)) (tagged_size m x s free (omega (arith, p.big)));
    type_tag =
        rw (added-tagged (x + 8) (inr (inl refl))) (tagged_type m x s free (omega (arith, p.big)));
    footer_size =
        rw (added-tagged (x + s - 16) (inr (inr (omega (arith, p.big)))))
          (tagged_footer_size m x s free (omega (arith, p.big)));
    footer_type =
        rw (added-tagged (x + s - 16 + 8) (inr (inr (omega (arith, p.big)))))
          (tagged_footer_type m x s free (omega (arith, p.big)));
  }

  added_next : added a m x (x + 16) ≡ m (next_free_of a)
  unfolding added write
  added_next = ground (arith, p.size_tag, p.big, bounds, tagged_ne m x (m x) free (next_free_of a))

  pub added_head : added a m x (next_free_of a) ≡ x - a.header
  unfolding added write block_offset
  added_head = ground arith

  pub listed-apart : (f : ℕ) → has f fs ≡ true → (first_block a ≤ f) × ((f + 48 ≤ x) ⊎ (x + s ≤ f))
  listed-apart f i = ground (
    arith,
    p.listed f,
    bounds,
    frees-bounds a m x f (first_block a) before p.front,
    frees-bounds a m e f (x + s) after p.back,
  )

  pub added-IsValid : IsValid a (added a m x) e (before ++ (block s free ∷ after)) (x ∷ fs)
  added-IsValid = record {
    header_pos = p.header_pos;
    ends = rw total p.ends;
    fits = p.fits;
    tiled =
        Tiled-append a (added a m x) e (first_block a) before (block s free ∷ after) x
          (Tiled-frame a m x (added a m x) (first_block a) before p.front
            λ y lo hi. added_ne y (omega arith) (inl hi))
          (
            added-HasBlock,
            Tiled-frame a m e (added a m x) (x + s) after p.back
                λ y lo hi. added_ne y (omega (arith, bounds)) (inr lo),
          );
    chain =
        rw (added_head, total)
          (
            ground (arith, p.fits, bounds, p.big),
            omega (arith, bounds),
            ground (arith, p.ends, p.fits, p.aligned, p.big, bounds),
            rw added_next (
                Chain-frame a m x s (added a m x) (m (next_free_of a)) fs p.chain total
                  λ f i. ground (arith, added_ne (f + 16), listed-apart f i)),
          );
    listed = λ y. ground (
      arith,
      p.listed y,
      has-frees-append a m x y (first_block a) before (block s free ∷ after) x p.front,
    );
    distinct = (ground (arith, listed-apart x, p.big), p.distinct);
  }
    where
      total : added a m x (total_size_of a) ≡ m (total_size_of a)
      total = added_ne (total_size_of a) (omega arith) (inl (omega (arith, bounds)))
