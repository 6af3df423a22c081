-- ===== src/Allocator/Split.antt =====
-- `allocator_trim_block` cuts a block in two and keeps the invariant (src/shmem/allocator.c).
use libkrossbar.Prelude.{
  ℕ, ◌+◌, ◌-◌, ◌%◌, ◌^◌, ◌≤◌, ◌<◌, ◌≡◌, refl, ◌≢◌, inl, inr, ◌⊎◌, true, false, List, [], ◌∷◌, ◌++◌,
  arith, if◌then◌else◌, ◌∙◌, append_assoc, Bool-cases, ltb,
}
use libkrossbar.Memory.{Memory, write, ok}
use libkrossbar.Allocator.Fields.{Allocator, free, allocated, total_size_of, next_free_of, next_of}
use libkrossbar.Allocator.{add_free_block, block_offset, split_block, trim_block}
use libkrossbar.Allocator.Tags.{
  tagged, write_block_tags_lem, tagged_ne, tagged_size, tagged_type, tagged_footer_size,
  tagged_footer_type,
}
use libkrossbar.Allocator.FreeList.{offset_to_block_lem}
use libkrossbar.Allocator.Layout.{
  Block, block, HasBlock, Tiled, Tiled-frame, Tiled-append, has-frees-append,
}
use libkrossbar.Allocator.Unlink.{Outside, Chain-frame}
use libkrossbar.Allocator.Payload.{in_payload, payload-append, payload-bounds}
use libkrossbar.Allocator.Validity.{first_block, IsValid, back}
use libkrossbar.Allocator.Attach.{
  IsPending, added, bounds, listed-apart, add_free_block_lem, added-IsValid, added_ne,
  IsPending_of_IsValid,
}

-- The memory when `split_block` calls `allocator_add_free_block`.
pub cut : (m : Memory) (x new : ℕ) → Memory
cut m x new =
    let rest = tagged m (x + new) (m x - new) free in
    tagged (write rest (next_of (x + new)) (rest (next_of x))) x new allocated

module _ (a : Allocator) (m : Memory) (e : ℕ) (before : List Block) (x s : ℕ) (after : List Block)
    (fs : List ℕ) (p : IsPending a m e before x s after fs) (new : ℕ) (large : 48 ≤ new)
    (room : new + 48 ≤ s) (multiple : new % 8 ≡ 0) where
  range : (first_block a ≤ x) × (x + s ≤ e)
  range = bounds a m e before x s after fs p

  cut_ne : (y : ℕ) → Outside x s y → cut m x new y ≡ m y
  unfolding cut write
  cut_ne y o = ground (
    arith,
    p.size_tag,
    tagged_ne m (x + new) (m x - new) free y,
    tagged_ne
        (write (tagged m (x + new) (m x - new) free) (x + new + 16)
          (tagged m (x + new) (m x - new) free (x + 16)))
        x new allocated y,
  )

  cut_rest : cut m x new (x + new) ≡ s - new
  unfolding cut write
  cut_rest = ground (
    arith,
    p.size_tag,
    tagged_size m (x + new) (m x - new) free,
    tagged_ne
        (write (tagged m (x + new) (m x - new) free) (x + new + 16)
          (tagged m (x + new) (m x - new) free (x + 16)))
        x new allocated (x + new),
  )

  cut-HasBlock : HasBlock a (cut m x new) x (block new allocated)
  unfolding cut
  cut-HasBlock = record {
    big = large;
    aligned = p.aligned;
    size_tag = tagged_size _ x new allocated (omega arith);
    type_tag = tagged_type _ x new allocated (omega arith);
    footer_size = tagged_footer_size _ x new allocated (omega arith);
    footer_type = tagged_footer_type _ x new allocated (omega arith);
  }

  pub split_block-add : split_block a x new m ≡ add_free_block a (x + new) (cut m x new)
  unfolding split_block cut block_offset
  split_block-add = ground (
    arith,
    p.size_tag,
    p.big,
    p.ends,
    p.fits,
    p.aligned,
    range,
    offset_to_block_lem a m (x - a.header + new),
    write_block_tags_lem m (x + new) (m x - new) free,
    write_block_tags_lem
        (write (tagged m (x + new) (m x - new) free) (x + new + 16)
          (tagged m (x + new) (m x - new) free (x + 16)))
        x new allocated,
  )

  total : cut m x new (total_size_of a) ≡ m (total_size_of a)
  total = cut_ne (total_size_of a) (inl (omega (arith, range)))

  pub cut-IsPending :
      IsPending a
        (cut m x new)
        e
        (before ++ (block new allocated ∷ []))
        (x + new)
        (s - new)
        after
        fs
  cut-IsPending = record {
    header_pos = p.header_pos;
    ends = rw total p.ends;
    fits = p.fits;
    front =
        Tiled-append a (cut m x new) (x + new) (first_block a) before (block new allocated ∷ []) x
          (Tiled-frame a m x (cut m x new) (first_block a) before p.front
            λ y lo hi. cut_ne y (inl hi))
          (cut-HasBlock, refl);
    big = omega arith;
    aligned = omega (arith, p.aligned, range);
    size_tag = cut_rest;
    back =
        rw behind
          (Tiled-frame a m e (cut m x new) (x + s) after p.back λ y lo hi. cut_ne y (inr lo));
    chain = rw (cut_ne (next_free_of a) (inl (omega (arith, range)))) (
        Chain-frame a m x s (cut m x new) (m (next_free_of a)) fs p.chain total
          λ f i. ground (arith, cut_ne (f + 16), listed-apart a m e before x s after fs p f i));
    listed = λ y. rw behind (
        ground (
          arith,
          p.listed y,
          has-frees-append a m x y (first_block a) before (block new allocated ∷ []) x p.front,
        ));
    distinct = p.distinct;
  }
    where
      behind : x + new + (s - new) ≡ x + s
      behind = omega arith

  pub split_block_lem : split_block a x new m ≡ ok tt (added a (cut m x new) (x + new))
  split_block_lem =
      split_block-add
      ∙ add_free_block_lem a (cut m x new) e (before ++ (block new allocated ∷ [])) (x + new)
          (s - new) after fs cut-IsPending

  pub split-IsValid :
      IsValid a
        (added a (cut m x new) (x + new))
        e
        (before ++ (block new allocated ∷ block (s - new) free ∷ after))
        ((x + new) ∷ fs)
  split-IsValid =
      rw (append_assoc before (block new allocated ∷ []) (block (s - new) free ∷ after)) at (
        added-IsValid a (cut m x new) e (before ++ (block new allocated ∷ [])) (x + new) (s - new)
          after fs cut-IsPending)

  pub split_ne :
      (y : ℕ) → y ≢ next_free_of a → Outside x s y → added a (cut m x new) (x + new) y ≡ m y
  split_ne y ne o =
      added_ne a (cut m x new) e (before ++ (block new allocated ∷ [])) (x + new) (s - new) after fs
        cut-IsPending y ne (ground arith)
      ∙ cut_ne y o

  -- The owners of the blocks, the shortened one included, find their words unchanged.
  pub split_payload :
      (y : ℕ)
      → in_payload y
          (first_block a)
          (before ++ (block new allocated ∷ block (s - new) free ∷ after))
        ≡ true
      → added a (cut m x new) (x + new) y ≡ m y
  unfolding cut write
  split_payload y h = ground (
    arith,
    place,
    range,
    p.size_tag,
    added_ne a (cut m x new) e (before ++ (block new allocated ∷ [])) (x + new) (s - new) after fs
        cut-IsPending y,
    tagged_ne m (x + new) (m x - new) free y,
    tagged_ne
        (write (tagged m (x + new) (m x - new) free) (x + new + 16)
          (tagged m (x + new) (m x - new) free (x + 16)))
        x new allocated y,
  )
    where
      behind : x + new + (s - new) ≡ x + s
      behind = omega arith

      place :
          (first_block a + 24 ≤ y)
          × ((y + 16 < x) ⊎ ((x + 24 ≤ y) × (y + 16 < x + new)) ⊎ (x + s ≤ y))
      place = ground (
        arith,
        payload-append a m y (first_block a) before
            (block new allocated ∷ block (s - new) free ∷ after) x p.front,
        payload-bounds a m x y (first_block a) before p.front,
        payload-bounds a m e y (x + s) after p.back,
        behind,
        range,
      )

-- What `allocator_trim_block` makes of a block of `s` bytes: the blocks in its place, and the free
-- list.
abbrev pub kept_size : (s new : ℕ) → ℕ
kept_size s new = if ltb s (new + 104) then s else new

abbrev pub cut_off : (s new : ℕ) → List Block
cut_off s new = if ltb s (new + 104) then [] else block (s - new) free ∷ []

abbrev pub kept_list : (x s new : ℕ) → List ℕ → List ℕ
kept_list x s new fs = if ltb s (new + 104) then fs else (x + new) ∷ fs

pub kept_size-le : (s new : ℕ) → kept_size s new ≤ s
kept_size-le s new = ground arith

pub trimmed : Allocator → Memory → (x new : ℕ) → Memory
trimmed a m x new = if ltb (m x) (new + 104) then m else added a (cut m x new) (x + new)

module _ (a : Allocator) (m : Memory) (e : ℕ) (before after : List Block) (fs : List ℕ)
    (x s new : ℕ) (v : IsValid a m e (before ++ (block s allocated ∷ after)) fs)
    (front : Tiled a m (first_block a) before x) (large : 48 ≤ new) (small : new + 104 < 2 ^ 64)
    (multiple : new % 8 ≡ 0) where
  here : HasBlock a m x (block s allocated)
  here = (back a m e before after fs x (block s allocated) v front).0

  pending : IsPending a m e before x s after fs
  pending = IsPending_of_IsValid a m e before after fs x s v front

  within : (first_block a ≤ x) × (x + s ≤ e)
  within = bounds a m e before x s after fs pending

  pub trim_block_lem : trim_block a x new false m ≡ ok tt (trimmed a m x new)
  unfolding trim_block trimmed
  trim_block_lem = ground (
    arith,
    here.size_tag,
    here.type_tag,
    within,
    v.ends,
    v.fits,
    split_block_lem a m e before x s after fs pending new large,
  )

  pub trimmed-IsValid :
      IsValid a
        (trimmed a m x new)
        e
        (before ++ (block (kept_size s new) allocated ∷ (cut_off s new ++ after)))
        (kept_list x s new fs)
  unfolding trimmed
  trimmed-IsValid = rw here.size_tag (elim (Bool-cases (ltb s (new + 104))) [
    | inl q ↦ rw q v
    | inr q ↦
        rw q (split-IsValid a m e before x s after fs pending new large (ground arith) multiple)
  ])

  pub trimmed_ne : (y : ℕ) → y ≢ next_free_of a → Outside x s y → trimmed a m x new y ≡ m y
  unfolding trimmed
  trimmed_ne y ne o = rw here.size_tag (elim (Bool-cases (ltb s (new + 104))) [
    | inl q ↦ rw q
    | inr q ↦
        rw q (split_ne a m e before x s after fs pending new large (ground arith) multiple y ne o)
  ])
