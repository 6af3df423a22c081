-- ===== src/Allocator/Merge.antt =====
-- `allocator_coalesce_free_blocks` makes two free neighbours one block and keeps the invariant
-- (src/shmem/allocator.c).
use libkrossbar.Prelude.{
  ℕ, ◌+◌, ◌≤◌, ◌<◌, ◌≡◌, refl, sym, ◌≢◌, ◌⊎◌, inl, inr, true, List, [], ◌∷◌, ◌++◌, arith, ◌∙◌,
  subst, length, append_assoc,
}
use libkrossbar.Memory.{Memory, write, ok, add_size}
use libkrossbar.Allocator.Fields.{Allocator, free, allocated, total_size_of, next_free_of, size_of}
use libkrossbar.Allocator.{merge_blocks}
use libkrossbar.Allocator.Tags.{
  tagged, write_block_tags_lem, tagged_ne, tagged_size, tagged_type, tagged_footer_size,
  tagged_footer_type,
}
use libkrossbar.Allocator.FreeList.{has}
use libkrossbar.Allocator.Layout.{
  Block, block, HasBlock, Tiled, Tiled-frame, Tiled-append, Tiled-front, has-frees-append,
  frees-bounds, Tiled-le,
}
use libkrossbar.Allocator.Unlink.{remove, Chain-frame}
use libkrossbar.Allocator.Payload.{in_payload, payload-Outside}
use libkrossbar.Allocator.Validity.{first_block, IsValid, back, block_bounds, listed_at}
use libkrossbar.Allocator.Detach.{
  detached, detached_payload, remove_free_block_lem, detached-IsValid, detached_header,
}

-- The two stores of the merge: the size first, then all the tags.
pub widened : Memory → (x size : ℕ) → Memory
widened m x size = tagged (write m (size_of x) size) x size free

-- A free block swallows the unlisted block behind it.
module _ (a : Allocator) (m : Memory) (e : ℕ) (before after : List Block) (fs : List ℕ) (x s t : ℕ)
    (v : IsValid a m e (before ++ (block s free ∷ block t allocated ∷ after)) fs)
    (front : Tiled a m (first_block a) before x) where
  here : Tiled a m x (block s free ∷ block t allocated ∷ after) e
  here = back a m e before (block t allocated ∷ after) fs x (block s free) v front

  within : (first_block a ≤ x) × (x + s ≤ e)
  within = block_bounds a m e before (block t allocated ∷ after) fs x (block s free) v front

  widened_ne :
      (y : ℕ) → y ≢ x → y ≢ x + 8 → (y < x + 24) ⊎ (x + s + t ≤ y) → widened m x (s + t) y ≡ m y
  unfolding widened write
  widened_ne y h1 h2 o =
      ground (arith, here.0.big, here.1.0.big, tagged_ne (write m x (s + t)) x (s + t) free y)

  apart :
      (f : ℕ) → has f fs ≡ true → (first_block a ≤ f) × ((f ≡ x) ⊎ (f + 48 ≤ x) ⊎ (x + s + t ≤ f))
  apart f i = ground (
    arith,
    within,
    here.0.big,
    here.1.0.big,
    listed_at a m e before (block t allocated ∷ after) fs x (block s free) v front f,
    frees-bounds a m x f (first_block a) before front,
    frees-bounds a m e f (x + s + t) after here.1.1,
  )

  total : widened m x (s + t) (total_size_of a) ≡ m (total_size_of a)
  total =
      widened_ne (total_size_of a) (omega (arith, within)) (omega (arith, within))
        (inl (omega (arith, within)))

  head : widened m x (s + t) (next_free_of a) ≡ m (next_free_of a)
  head =
      widened_ne (next_free_of a) (omega (arith, within)) (omega (arith, within))
        (inl (omega (arith, within)))

  widened-HasBlock : HasBlock a (widened m x (s + t)) x (block (s + t) free)
  unfolding widened
  widened-HasBlock = record {
    big = omega (arith, here.0.big);
    aligned = here.0.aligned;
    size_tag = tagged_size _ x (s + t) free (omega (arith, here.0.big));
    type_tag = tagged_type _ x (s + t) free (omega (arith, here.0.big));
    footer_size = tagged_footer_size _ x (s + t) free (omega (arith, here.0.big));
    footer_type = tagged_footer_type _ x (s + t) free (omega (arith, here.0.big));
  }

  end : x + (s + t) ≡ x + s + t
  end = omega arith

  pub widened-IsValid :
      IsValid a (widened m x (s + t)) e (before ++ (block (s + t) free ∷ after)) fs
  widened-IsValid = record {
    header_pos = v.header_pos;
    ends = rw total v.ends;
    fits = v.fits;
    tiled =
        Tiled-append a (widened m x (s + t)) e (first_block a) before (block (s + t) free ∷ after) x
          (Tiled-frame a m x (widened m x (s + t)) (first_block a) before front
            λ y lo hi. widened_ne y (omega arith) (omega arith) (inl (omega arith)))
          (
            widened-HasBlock,
            rw end (
                Tiled-frame a m e (widened m x (s + t)) (x + s + t) after here.1.1 λ y lo hi.
                  widened_ne y (omega (arith, here.0.big)) (omega (arith, here.0.big)) (inr lo)),
          );
    chain = rw head (
        Chain-frame a m 0 0 (widened m x (s + t)) (m (next_free_of a)) fs v.chain total
          λ f i. ground (arith, apart f i, here.0.big, here.1.0.big, widened_ne (f + 16)));
    listed = λ y.
        rw
          (
            has-frees-append a m x y (first_block a) before (block (s + t) free ∷ after) x front,
            end,
          )
          (listed_at a m e before (block t allocated ∷ after) fs x (block s free) v front y);
    distinct = v.distinct;
  }

-- Two free neighbours, the second of which leaves the list.
module _ (a : Allocator) (m : Memory) (e : ℕ) (before after : List Block) (fs : List ℕ) (x s t : ℕ)
    (v : IsValid a m e (before ++ (block s free ∷ block t free ∷ after)) fs)
    (front : Tiled a m (first_block a) before x) where
  split_list :
      before ++ (block s free ∷ block t free ∷ after)
      ≡ (before ++ (block s free ∷ [])) ++ (block t free ∷ after)
  split_list = sym (append_assoc before (block s free ∷ []) (block t free ∷ after))

  v' : IsValid a m e ((before ++ (block s free ∷ [])) ++ (block t free ∷ after)) fs
  v' = subst (λ l. IsValid a m e l fs) split_list v

  first_here : HasBlock a m x (block s free)
  first_here = (back a m e before (block t free ∷ after) fs x (block s free) v front).0

  behind : Tiled a m (first_block a) (before ++ (block s free ∷ [])) (x + s)
  behind =
      Tiled-append a m (x + s) (first_block a) before (block s free ∷ []) x front (first_here, refl)

  abbrev alone : Memory
  alone = detached a m e (before ++ (block s free ∷ [])) after fs (x + s) t v' behind

  alone-IsValid :
      IsValid a alone e (before ++ (block s free ∷ block t allocated ∷ after)) (remove (x + s) fs)
  alone-IsValid =
      subst (λ l. IsValid a alone e l (remove (x + s) fs))
        (append_assoc before (block s free ∷ []) (block t allocated ∷ after))
        (detached-IsValid a m e (before ++ (block s free ∷ [])) after fs (x + s) t v' behind)

  alone-front : Tiled a alone (first_block a) before x
  alone-front = Tiled-front a m alone (first_block a) e x before _ front alone-IsValid.tiled

  alone-here : Tiled a alone x (block s free ∷ block t allocated ∷ after) e
  alone-here =
      back a alone e before (block t allocated ∷ after) (remove (x + s) fs) x (block s free)
        alone-IsValid alone-front

  alone-within : (first_block a ≤ x) × (x + s + t ≤ e)
  alone-within = (
    Tiled-le a m x (first_block a) before front,
    Tiled-le a alone e (x + s + t) after alone-here.1.1,
  )

  pub merged : Memory
  merged = widened alone x (s + t)

  pub merge_blocks_lem :
      (fuel : ℕ) → length fs ≤ fuel → merge_blocks fuel a (x + s) x (x + s) m ≡ ok tt merged
  unfolding merge_blocks merged widened
  merge_blocks_lem fuel h =
      rw
        (
          remove_free_block_lem a m e (before ++ (block s free ∷ [])) after fs (x + s) t v' behind
              fuel h,
          alone-here.0.size_tag,
          alone-here.1.0.size_tag,
          sum,
        )
        (write_block_tags_lem (write alone x (s + t)) x (s + t) free (omega (arith, alone-within))
          (omega (arith, alone-here.0.big)))
    where
      sum : add_size s t ≡ s + t
      sum = omega (arith, alone-within, alone-IsValid.fits)

  pub merged-IsValid :
      IsValid a merged e (before ++ (block (s + t) free ∷ after)) (remove (x + s) fs)
  unfolding merged
  merged-IsValid =
      widened-IsValid a alone e before after (remove (x + s) fs) x s t alone-IsValid alone-front

  pub merged_header : (y : ℕ) → y < a.header + 32 → merged y ≡ m y
  unfolding merged
  merged_header y h =
      widened_ne a alone e before after (remove (x + s) fs) x s t alone-IsValid alone-front y
        (omega (arith, alone-within)) (omega (arith, alone-within))
        (inl (omega (arith, alone-within)))
      ∙ detached_header a m e (before ++ (block s free ∷ [])) after fs (x + s) t v' behind y h

  pub merged_payload :
      (y : ℕ)
      → in_payload y (first_block a) (before ++ (block s free ∷ block t free ∷ after)) ≡ true
      → merged y ≡ m y
  unfolding merged
  merged_payload y h =
      let out = payload-Outside a m e before (block t free ∷ after) fs x s v front y h in
      let h' = subst (λ l. in_payload y (first_block a) l ≡ true) split_list h in
      let out' =
        payload-Outside a m e (before ++ (block s free ∷ [])) after fs (x + s) t v' behind y h' in
      widened_ne a alone e before after (remove (x + s) fs) x s t alone-IsValid alone-front y
        (ground (arith, out, alone-here.0.big)) (ground (arith, out, alone-here.0.big))
        (ground (arith, out, out'))
      ∙ detached_payload a m e (before ++ (block s free ∷ [])) after fs (x + s) t v' behind y h'
