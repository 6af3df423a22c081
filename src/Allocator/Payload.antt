-- ===== src/Allocator/Payload.antt =====
-- The words that the owners of allocated blocks may use (src/shmem/allocator.c): those between a
-- block's header and its footer. No function of the allocator writes to them.
use libkrossbar.Prelude.{
  ℕ, ◌+◌, ◌≤◌, ◌<◌, ◌≡◌, refl, sym, ◌≢◌, inl, inr, Bool, true, false, ◌&&◌, ◌||◌, List, [], ◌∷◌,
  ◌++◌, arith, ◌∙◌, leb, ltb, if◌then◌else◌, Bool-cases,
}
use libkrossbar.Memory.{Memory, write}
use libkrossbar.Allocator.Fields.{Allocator, free, next_free_of}
use libkrossbar.Allocator.FreeList.{has, link_of}
use libkrossbar.Allocator.Layout.{
  Block, block, Tiled, Tiled-le, Tiled-write, Spares, Spares-left, frees, is_free, frees-bounds,
}
use libkrossbar.Allocator.Unlink.{Outside, Chain-frame, link_of-cases}
use libkrossbar.Allocator.Validity.{first_block, IsValid, back}

-- `y` is a word between the header and the footer of an allocated block of `bs`, which fill the
-- region from `p` on.
abbrev pub in_payload : (y p : ℕ) → List Block → Bool
in_payload y p [] = false
in_payload y p (b ∷ bs) =
    (if is_free b then false else leb (p + 24) y && ltb (y + 16) (p + b.size))
    || in_payload y (p + b.size) bs

module _ (a : Allocator) (m : Memory) where
  pub payload-append :
      (y p : ℕ) (xs ys : List Block) (x : ℕ)
      → Tiled a m p xs x
      → in_payload y p (xs ++ ys) ≡ (in_payload y p xs || in_payload y x ys)
  payload-append y p [] ys x t = rw t
  payload-append y p (b ∷ xs) ys x t = ground (arith, payload-append y (p + b.size) xs ys x t.1)

  pub payload-bounds :
      (e y p : ℕ) (bs : List Block)
      → Tiled a m p bs e
      → in_payload y p bs ≡ true
      → (p + 24 ≤ y) × (y + 16 < e)
  payload-bounds e y p [] t h = absurd (cc)
  payload-bounds e y p (b ∷ bs) t h =
      ground (arith, Tiled-le a m e (p + b.size) bs t.1, payload-bounds e y (p + b.size) bs t.1)

  -- The links of the free list are no payload.
  pub payload_next :
      (e y g p : ℕ) (bs : List Block)
      → Tiled a m p bs e
      → in_payload y p bs ≡ true
      → has g (frees p bs) ≡ true
      → y ≢ g + 16
  payload_next e y g p [] t h i = absurd (cc)
  payload_next e y g p (b ∷ bs) t h i = ground (
    arith,
    payload_next e y g (p + b.size) bs t.1,
    payload-bounds e y (p + b.size) bs t.1,
    frees-bounds a m e g (p + b.size) bs t.1,
  )

  -- Nor are tags.
  pub Spares-payload :
      (e y p : ℕ) (bs : List Block) → Tiled a m p bs e → in_payload y p bs ≡ true → Spares y p bs
  Spares-payload e y p [] t h = absurd (cc)
  Spares-payload e y p (b ∷ bs) t h = elim (Bool-cases (in_payload y (p + b.size) bs)) [
    | inl behind ↦ (
      inr (inl (omega (arith, payload-bounds e y (p + b.size) bs t.1 behind))),
      Spares-payload e y (p + b.size) bs t.1 behind,
    )
    | inr here ↦ (inr (inr (ground arith)), Spares-left a m e y (p + b.size) bs t.1 (ground arith))
  ]

-- Free neighbours made one have no payload either way.
pub payload-join :
    (a : Allocator) (m : Memory) (y p : ℕ) (before after : List Block) (x s t : ℕ)
    → Tiled a m p before x
    → in_payload y p (before ++ (block (s + t) free ∷ after))
      ≡ in_payload y p (before ++ (block s free ∷ block t free ∷ after))
payload-join a m y p before after x s t front =
    rw
      (
        payload-append a m y p before (block (s + t) free ∷ after) x front,
        payload-append a m y p before (block s free ∷ block t free ∷ after) x front,
        sum,
      )
      refl
  where
    sum : x + (s + t) ≡ x + s + t
    sum = omega arith

-- The words of the others' payloads lie outside a block that is not allocated, and the change of the
-- free list at `link` is none of theirs.
module _ (a : Allocator) (m : Memory) (e : ℕ) (before after : List Block) (fs : List ℕ) (x s : ℕ)
    (v : IsValid a m e (before ++ (block s free ∷ after)) fs)
    (front : Tiled a m (first_block a) before x) (y : ℕ)
    (h : in_payload y (first_block a) (before ++ (block s free ∷ after)) ≡ true) where
  pub payload-Outside : Outside x s y
  payload-Outside = ground (
    arith,
    payload-append a m y (first_block a) before (block s free ∷ after) x front,
    payload-bounds a m x y (first_block a) before front,
    payload-bounds a m e y (x + s) after (back a m e before after fs x (block s free) v front).1,
  )

  pub payload-header : a.header + 64 ≤ y
  payload-header = omega (arith, payload-bounds a m e y (first_block a) _ v.tiled h)

  pub payload-link : y ≢ link_of (next_free_of a) fs x
  payload-link = elim (link_of-cases a m x 0 (next_free_of a) fs) [
    | inl q ↦ λ same. omega (arith, payload-header, q, same)
    | inr (g, i, q) ↦
        λ same. payload_next a m e y g (first_block a) _ v.tiled h (sym (v.listed g) ∙ i) (same ∙ q)
  ]

-- A write to a payload keeps the invariant.
pub payload_write-IsValid :
    (a : Allocator) (m : Memory) (e y w : ℕ) (bs : List Block) (fs : List ℕ)
    → IsValid a m e bs fs
    → in_payload y (first_block a) bs ≡ true
    → IsValid a (write m y w) e bs fs
payload_write-IsValid a m e y w bs fs v h = record {
  header_pos = v.header_pos;
  ends = unfold write in ground (arith, low, v.ends);
  fits = v.fits;
  tiled =
      Tiled-write a m e y w (first_block a) bs v.tiled
        (Spares-payload a m e y (first_block a) bs v.tiled h);
  chain = rw same_head (
      Chain-frame a m 0 0 (write m y w) (m (next_free_of a)) fs v.chain
        (unfold write in ground (arith, low))
        λ g i.
          next_word g (payload_next a m e y g (first_block a) bs v.tiled h (sym (v.listed g) ∙ i)));
  listed = v.listed;
  distinct = v.distinct;
}
  where
    low : a.header + 64 ≤ y
    low = omega (arith, payload-bounds a m e y (first_block a) bs v.tiled h)

    same_head : write m y w (next_free_of a) ≡ m (next_free_of a)
    same_head = unfold write in ground (arith, low)

    next_word : (g : ℕ) → y ≢ g + 16 → write m y w (g + 16) ≡ m (g + 16)
    next_word g ne = unfold write in ground (arith, ne)
