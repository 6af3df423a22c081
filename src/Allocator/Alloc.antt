-- ===== src/Allocator/Alloc.antt =====
-- `allocator_alloc`: which block it takes, what it makes of it, and what it leaves alone
-- (src/shmem/allocator.c).
use libkrossbar.Prelude.{
  ℕ, ◌+◌, ◌%◌, ◌^◌, ◌≤◌, ◌<◌, ◌≡◌, refl, ◌≢◌, ◌⊎◌, inl, inr, true, List, ◌∷◌, ◌++◌, arith, ◌∙◌,
  length,
}
use libkrossbar.Memory.{Memory, write, ok, sub_size}
use libkrossbar.Allocator.Fields.{
  Allocator, free, allocated, futex_of, total_size_of, free_size_of, next_free_of,
  max_message_size_of,
}
use libkrossbar.Allocator.{take_block, allocator_unlock}
use libkrossbar.Allocator.Tags.{
  tagged, write_block_tags_lem, tagged_ne, tagged_size, tagged_type, tagged_footer_size,
  tagged_footer_type,
}
use libkrossbar.Allocator.Layout.{
  Tiled-front, Block, block, HasBlock, Tiled, Tiled-frame, Tiled-append, frees-bounds,
}
use libkrossbar.Allocator.Unlink.{remove, Outside, Chain-frame}
use libkrossbar.Allocator.Payload.{in_payload, payload-Outside, payload-header}
use libkrossbar.Allocator.Validity.{first_block, IsValid, back, block_bounds, free_apart}
use libkrossbar.Allocator.Detach.{
  detached_header, detached_payload, detached, remove_free_block_lem, detached-IsValid,
}
use libkrossbar.Allocator.Split.{
  kept_size, kept_size-le, cut_off, kept_list, trimmed, trim_block_lem, trimmed-IsValid, trimmed_ne,
}

-- A write to the header, but to the size of the region and to the free list's head.
pub header_write-IsValid :
    (a : Allocator) (m : Memory) (e q w : ℕ) (bs : List Block) (fs : List ℕ)
    → IsValid a m e bs fs
    → q < first_block a
    → q ≢ total_size_of a
    → q ≢ next_free_of a
    → IsValid a (write m q w) e bs fs
unfolding write
header_write-IsValid a m e q w bs fs v lt ne ne' = record {
  header_pos = v.header_pos;
  ends = ground (arith, v.ends);
  fits = v.fits;
  tiled = Tiled-frame a m e (write m q w) (first_block a) bs v.tiled λ y lo hi. ground arith;
  chain = rw same_head (
      Chain-frame a m 0 0 (write m q w) (m (next_free_of a)) fs v.chain (ground arith)
        λ f i. ground (arith, frees-bounds a m e f (first_block a) bs v.tiled, v.listed f));
  listed = v.listed;
  distinct = v.distinct;
}
  where
    same_head : write m q w (next_free_of a) ≡ m (next_free_of a)
    same_head = ground arith

-- Writing the tags that a block has already.
pub retag-IsValid :
    (a : Allocator) (m : Memory) (e x s : ℕ) (before after : List Block) (fs : List ℕ)
    → IsValid a m e (before ++ (block s allocated ∷ after)) fs
    → Tiled a m (first_block a) before x
    → IsValid a (tagged m x s allocated) e (before ++ (block s allocated ∷ after)) fs
retag-IsValid a m e x s before after fs v front = record {
  header_pos = v.header_pos;
  ends = rw (same (total_size_of a) (inl (omega (arith, bounds)))) v.ends;
  fits = v.fits;
  tiled =
      Tiled-append a m' e (first_block a) before (block s allocated ∷ after) x
        (Tiled-frame a m x m' (first_block a) before front λ y lo hi. same y (inl hi))
        (
          record {
            big = here.0.big;
            aligned = here.0.aligned;
            size_tag = tagged_size m x s allocated (omega (arith, here.0.big));
            type_tag = tagged_type m x s allocated (omega (arith, here.0.big));
            footer_size = tagged_footer_size m x s allocated (omega (arith, here.0.big));
            footer_type = tagged_footer_type m x s allocated (omega (arith, here.0.big));
          },
          Tiled-frame a m e m' (x + s) after here.1 λ y lo hi. same y (inr lo),
        );
  chain = rw (same (next_free_of a) (inl (omega (arith, bounds)))) (
      Chain-frame a m x s m' (m (next_free_of a)) fs v.chain
        (same (total_size_of a) (inl (omega (arith, bounds))))
        λ f i. next_word f (free_apart a m e before after fs x (block s allocated) v front f i));
  listed = v.listed;
  distinct = v.distinct;
}
  where
    m' : Memory
    m' = tagged m x s allocated

    here : Tiled a m x (block s allocated ∷ after) e
    here = back a m e before after fs x (block s allocated) v front

    bounds : (first_block a ≤ x) × (x + s ≤ e)
    bounds = block_bounds a m e before after fs x (block s allocated) v front

    same : (y : ℕ) → Outside x s y → m' y ≡ m y
    same y o = ground (arith, here.0.big, tagged_ne m x s allocated y)

    next_word :
        (f : ℕ)
        → (first_block a ≤ f) × ((f ≡ x) ⊎ (f + 48 ≤ x) ⊎ (x + s ≤ f))
        → m' (f + 16) ≡ m (f + 16)
    next_word f h = ground (arith, here.0.big, tagged_ne m x s allocated (f + 16))

module _ (a : Allocator) (m : Memory) (e : ℕ) (before after : List Block) (fs : List ℕ)
    (x s need : ℕ) (v : IsValid a m e (before ++ (block s free ∷ after)) fs)
    (front : Tiled a m (first_block a) before x) (large : 48 ≤ need) (small : need + 104 < 2 ^ 64)
    (multiple : need % 8 ≡ 0) (held : m (futex_of a) ≡ 1) where
  abbrev off_list : Memory
  off_list = detached a m e before after fs x s v front

  off_list-IsValid : IsValid a off_list e (before ++ (block s allocated ∷ after)) (remove x fs)
  off_list-IsValid = detached-IsValid a m e before after fs x s v front

  off_list-front : Tiled a off_list (first_block a) before x
  off_list-front =
      Tiled-front a m off_list (first_block a) e x before _ front off_list-IsValid.tiled

  abbrev kept : ℕ
  kept = kept_size s need

  abbrev short : Memory
  short = trimmed a off_list x need

  short-IsValid :
      IsValid a short e
        (before ++ (block kept allocated ∷ (cut_off s need ++ after)))
        (kept_list x s need (remove x fs))
  short-IsValid =
      trimmed-IsValid a off_list e before after (remove x fs) x s need off_list-IsValid
        off_list-front large small multiple

  short-front : Tiled a short (first_block a) before x
  short-front = Tiled-front a m short (first_block a) e x before _ front short-IsValid.tiled

  short-bounds : (first_block a ≤ x) × (x + kept ≤ e)
  short-bounds =
      block_bounds a short e before (cut_off s need ++ after) (kept_list x s need (remove x fs)) x
        (block kept allocated) short-IsValid short-front

  short-here : HasBlock a short x (block kept allocated)
  short-here =
      (back a short e before (cut_off s need ++ after) (kept_list x s need (remove x fs)) x
        (block kept allocated) short-IsValid short-front).0

  short_header : (y : ℕ) → y < a.header + 32 → short y ≡ m y
  short_header y h =
      trimmed_ne a off_list e before after (remove x fs) x s need off_list-IsValid off_list-front
        large small multiple y (omega arith) (inl (omega (arith, short-bounds)))
      ∙ detached_header a m e before after fs x s v front y h

  -- The memory that `allocator_alloc` leaves.
  pub taken : Memory
  taken =
      write
        (write (tagged short x kept allocated) (free_size_of a)
          (sub_size (m (free_size_of a)) kept))
        (futex_of a) 0

  tagged_header : (y : ℕ) → y < a.header + 32 → tagged short x kept allocated y ≡ m y
  tagged_header y h =
      tagged_ne short x kept allocated y (omega (arith, short-bounds)) (omega (arith, short-bounds))
        (omega (arith, short-bounds, short-here.big)) (omega (arith, short-bounds, short-here.big))
      ∙ short_header y h

  pub take_block_lem :
      (fuel : ℕ) → length fs ≤ fuel → take_block fuel a need x m ≡ ok (x + 24) taken
  unfolding take_block taken allocator_unlock write
  take_block_lem fuel h =
      rw
        (
          remove_free_block_lem a m e before after fs x s v front fuel h,
          trim_block_lem a off_list e before after (remove x fs) x s need off_list-IsValid
              off_list-front large small multiple,
        )
        (rw
          (
            short-here.size_tag,
            write_block_tags_lem short x kept allocated (omega (arith, short-bounds))
                (omega (arith, short-here.big)),
            tagged_header (free_size_of a) (omega arith),
            unlocked,
          )
          refl)
    where
      unlocked :
          write
            (tagged short x kept allocated)
            (free_size_of a)
            (sub_size (m (free_size_of a)) kept)
            (futex_of a)
          ≡ 1
      unlocked = ground (arith, tagged_header (futex_of a), held)

  pub taken-IsValid :
      IsValid a taken e
        (before ++ (block kept allocated ∷ (cut_off s need ++ after)))
        (kept_list x s need (remove x fs))
  unfolding taken
  taken-IsValid =
      header_write-IsValid a _ e (futex_of a) 0 _ _
        (header_write-IsValid a _ e (free_size_of a) _ _ _
          (retag-IsValid a short e x kept before (cut_off s need ++ after) _ short-IsValid
            short-front)
          (omega arith) (omega arith) (omega arith))
        (omega arith) (omega arith) (omega arith)

  pub taken_free_size : taken (free_size_of a) ≡ sub_size (m (free_size_of a)) kept
  unfolding taken write
  taken_free_size = ground arith

  pub taken_futex : taken (futex_of a) ≡ 0
  unfolding taken write
  taken_futex = ground arith

  pub taken_max : taken (max_message_size_of a) ≡ m (max_message_size_of a)
  unfolding taken write
  taken_max = ground (arith, tagged_header (max_message_size_of a))

  pub taken_below : (y : ℕ) → y < a.header → taken y ≡ m y
  unfolding taken write
  taken_below y lt = ground (arith, tagged_header y)

  pub taken_payload :
      (y : ℕ)
      → in_payload y (first_block a) (before ++ (block s free ∷ after)) ≡ true
      → taken y ≡ m y
  unfolding taken write
  taken_payload y h =
      let out = payload-Outside a m e before after fs x s v front y h in
      let high = payload-header a m e before after fs x s v front y h in
      let within : kept ≤ s = omega (arith, kept_size-le s need) in
      let same =
        tagged_ne short x kept allocated y (ground (arith, out, short-here.big, within))
          (ground (arith, out, short-here.big, within))
          (ground (arith, out, short-here.big, within))
          (ground (arith, out, short-here.big, within))
        ∙ trimmed_ne a off_list e before after (remove x fs) x s need off_list-IsValid
            off_list-front large small multiple y (omega (arith, high)) out
        ∙ detached_payload a m e before after fs x s v front y h in
      ground (arith, high, same)
