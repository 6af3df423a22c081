-- ===== src/Allocator/Requests.antt =====
-- The contract of `allocator_alloc` (src/shmem/allocator.c): it takes the first listed block that
-- is large enough, and answers `NULL` where there is none.
use libkrossbar.Prelude.{
  ℕ, ◌+◌, ◌%◌, ◌^◌, ◌≤◌, ◌<◌, ◌≡◌, refl, ◌≢◌, inl, inr, true, false, List, [], ◌∷◌, ◌++◌, arith,
  ◌==◌, if◌then◌else◌, ◌∙◌, ap, subst, Bool-cases, length, fun_ext,
}
use libkrossbar.Memory.{Memory, write, ok, sub_size, add_size, null, ◌>>◌}
use libkrossbar.Allocator.Fields.{
  Allocator, free, allocated, futex_of, free_size_of, max_message_size_of, next_free_of,
}
use libkrossbar.Allocator.{take_block, allocator_alloc, allocator_lock, allocator_unlock}
use libkrossbar.Allocator.FreeList.{has, first_fit, offset_to_block-Chain, find_loop_lem}
use libkrossbar.Allocator.Layout.{
  Tiled-le, Block, block, Tiled, Tiled-front, FreeCut-has, frees-bounds,
}
use libkrossbar.Allocator.Unlink.{remove}
use libkrossbar.Allocator.Payload.{in_payload, payload-bounds}
use libkrossbar.Allocator.Validity.{first_block, IsValid, back}
use libkrossbar.Allocator.Split.{kept_size, cut_off, kept_list}
use libkrossbar.Allocator.Alloc.{
  header_write-IsValid, taken, take_block_lem, taken-IsValid, taken_free_size, taken_futex,
  taken_max, taken_below, taken_payload,
}

-- the size of the block that a request takes
abbrev pub need : Allocator → Memory → ℕ
need a m = m (max_message_size_of a) + 40

-- The largest message is aligned and leaves room for the sums of the allocator.
pub record IsConfigured (a : Allocator) (m : Memory) : Type 0 where
  pub aligned : m (max_message_size_of a) % 8 ≡ 0
  pub positive : 8 ≤ m (max_message_size_of a)
  pub small : m (max_message_size_of a) + 144 < 2 ^ 64

pub IsConfigured-same :
    (a : Allocator) (m m' : Memory)
    → m' (max_message_size_of a) ≡ m (max_message_size_of a)
    → IsConfigured a m
    → IsConfigured a m'
IsConfigured-same a m m' e c = record {
  aligned = rw e c.aligned;
  positive = rw e c.positive;
  small = rw e c.small;
}

first_fit-null :
    (m : Memory) (n : ℕ) (fs : List ℕ)
    → ((f : ℕ) → has f fs ≡ true → m f < n)
    → first_fit m n fs ≡ null
unfolding first_fit
first_fit-null m n [] h = refl
first_fit-null m n (f ∷ fs) h = ground (arith, h f, first_fit-null m n fs λ g i. h g (ground arith))

first_fit_large :
    (m : Memory) (n g : ℕ) (fs : List ℕ)
    → has g fs ≡ true
    → n ≤ m g
    → (has (first_fit m n fs) fs ≡ true) × (n ≤ m (first_fit m n fs))
unfolding first_fit
first_fit_large m n g [] i l = absurd (cc)
first_fit_large m n g (f ∷ fs) i l = ground (arith, first_fit_large m n g fs)

-- What a request for `n` bytes in a block has done, with `y` the payload that it answers.
pub record Took (a : Allocator) (m : Memory) (e : ℕ) (bs : List Block) (fs : List ℕ) (n y : ℕ)
    (m' : Memory) : Type 0 where
  pub at : ℕ
  pub size : ℕ
  pub before : List Block
  pub after : List Block
  pub payload : y ≡ at + 24
  pub was_free : bs ≡ before ++ (block size free ∷ after)
  pub stands : Tiled a m (first_block a) before at
  pub large : n ≤ size
  pub valid :
      IsValid a m' e
        (before ++ (block (kept_size size n) allocated ∷ (cut_off size n ++ after)))
        (kept_list at size n (remove at fs))
  pub accounted : m' (free_size_of a) ≡ sub_size (m (free_size_of a)) (kept_size size n)
  pub unlocked : m' (futex_of a) ≡ 0
  pub configured : m' (max_message_size_of a) ≡ m (max_message_size_of a)
  pub below : (q : ℕ) → q < a.header → m' q ≡ m q
  -- the owners of the other blocks find their words unchanged
  pub kept : (q : ℕ) → in_payload q (first_block a) bs ≡ true → m' q ≡ m q

module _ (a : Allocator) (m : Memory) (e : ℕ) (bs : List Block) (fs : List ℕ)
    (v : IsValid a m e bs fs) (c : IsConfigured a m) (unlocked : m (futex_of a) ≡ 0) (fuel : ℕ)
    (enough : length fs < fuel) where
  need-large : 48 ≤ need a m
  need-large = omega (arith, c.positive)

  need-small : need a m + 104 < 2 ^ 64
  need-small = omega (arith, c.small)

  need-aligned : need a m % 8 ≡ 0
  need-aligned = omega (arith, c.aligned)

  locked : Memory
  locked = write m (futex_of a) 1

  locked-IsValid : IsValid a locked e bs fs
  unfolding locked
  locked-IsValid =
      header_write-IsValid a m e (futex_of a) 1 bs fs v (omega arith) (omega arith) (omega arith)

  locked_ne : (y : ℕ) → y ≢ futex_of a → locked y ≡ m y
  unfolding locked write
  locked_ne y ne = ground arith

  -- The run up to the end of the search.
  alloc-found : allocator_alloc fuel a m ≡ (
      if first_fit locked (need a m) fs == null
      then (allocator_unlock a >> ok null) locked
      else take_block fuel a (need a m) (first_fit locked (need a m) fs) locked)
  unfolding allocator_alloc allocator_lock locked
  alloc-found = rw unlocked (
      rw
        (
          offset_to_block-Chain a (write m (futex_of a) 1) (write m (futex_of a) 1 (next_free_of a))
              fs locked-IsValid.chain,
          sizes,
          find_loop_lem a (write m (futex_of a) 1) fuel (need a m)
              (write m (futex_of a) 1 (next_free_of a)) fs v.header_pos locked-IsValid.chain enough,
        )
        (elim (Bool-cases (first_fit locked (need a m) fs == null)) [
          | inl q ↦ rw q
          | inr q ↦ rw q
        ]))
    where
      sizes : add_size (add_size (m (max_message_size_of a)) 24) 16 ≡ need a m
      sizes = omega (arith, c.small)

  listed_size : (f : ℕ) → has f fs ≡ true → (first_block a ≤ f) × (locked f ≡ m f)
  listed_size f i =
      ground (arith, locked_ne f, v.listed f, frees-bounds a m e f (first_block a) bs v.tiled)

  restored : write locked (futex_of a) 0 ≡ m
  unfolding locked write
  restored = fun_ext λ y. ground (arith, unlocked)

  -- On a valid, unlocked region whose largest message is a positive multiple of 8 below 2^64 - 144,
  -- with more fuel than free blocks, and where no listed block holds a largest message with its
  -- header and footer: `allocator_alloc` returns `NULL`, and the mapping is as it was.
  pub alloc-null :
      ((f : ℕ) → has f fs ≡ true → m f < need a m) → allocator_alloc fuel a m ≡ ok null m
  unfolding allocator_unlock
  alloc-null all =
      rw
        (
          alloc-found,
          first_fit-null locked (need a m) fs λ f i. ground (arith, all f i, listed_size f i),
          held,
          restored,
        )
        refl
    where
      held : locked (futex_of a) ≡ 1
      held = unfold locked write in ground arith

  module _ (x s : ℕ) (before after : List Block) (whole : bs ≡ before ++ (block s free ∷ after))
      (front : Tiled a locked (first_block a) before x) (found : first_fit locked (need a m) fs ≡ x)
      (large : need a m ≤ locked x) where
    cut-IsValid : IsValid a locked e (before ++ (block s free ∷ after)) fs
    cut-IsValid = subst (λ l. IsValid a locked e l fs) whole locked-IsValid

    size : locked x ≡ s
    size = (back a locked e before after fs x (block s free) cut-IsValid front).0.size_tag

    here : first_block a ≤ x
    here = Tiled-le a locked x (first_block a) before front

    held : locked (futex_of a) ≡ 1
    unfolding locked write
    held = ground arith

    some_block : (x == null) ≡ false
    some_block = ground (arith, here)

    abbrev left : Memory
    left =
        taken a locked e before after fs x s (need a m) cut-IsValid front need-large need-small
          need-aligned held

    Took-at :
        (allocator_alloc fuel a m ≡ ok (x + 24) left) × Took a m e bs fs (need a m) (x + 24) left
    Took-at = (
      rw (alloc-found, found, some_block)
          (take_block_lem a locked e before after fs x s (need a m) cut-IsValid front need-large
            need-small need-aligned held fuel (omega arith)),
      record {
        at = x;
        size = s;
        before = before;
        after = after;
        payload = refl;
        was_free = whole;
        stands = Tiled-front a locked m (first_block a) e x before _ front (rw whole at v.tiled);
        large = omega (arith, size);
        valid =
            taken-IsValid a locked e before after fs x s (need a m) cut-IsValid front need-large
              need-small need-aligned held;
        accounted =
            taken_free_size a locked e before after fs x s (need a m) cut-IsValid front need-large
              need-small need-aligned held
            ∙ ap (λ w. sub_size w (kept_size s (need a m)))
                (locked_ne (free_size_of a) (omega arith));
        unlocked =
            taken_futex a locked e before after fs x s (need a m) cut-IsValid front need-large
              need-small need-aligned held;
        configured =
            taken_max a locked e before after fs x s (need a m) cut-IsValid front need-large
              need-small need-aligned held
            ∙ locked_ne (max_message_size_of a) (omega arith);
        below = λ q lt.
            taken_below a locked e before after fs x s (need a m) cut-IsValid front need-large
              need-small need-aligned held q lt
            ∙ locked_ne q (omega arith);
        kept = λ q h.
            taken_payload a locked e before after fs x s (need a m) cut-IsValid front need-large
              need-small need-aligned held q
              (subst (λ l. in_payload q (first_block a) l ≡ true) whole h)
            ∙ locked_ne q (omega (arith, payload-bounds a m e q (first_block a) bs v.tiled h));
      },
    )

  -- On a valid, unlocked region whose largest message is a positive multiple of 8 below 2^64 - 144,
  -- with more fuel than free blocks, and where some listed block holds a largest message with its
  -- header and footer: `allocator_alloc` returns the payload of a block that was free and large
  -- enough. The block is allocated, cut to the request's size when the rest makes a block, and the
  -- rest is listed as free; the region is valid again, the account of free bytes is less by the
  -- block's size, and the lock is released.
  pub alloc-Took :
      (g : ℕ)
      → has g fs ≡ true
      → need a m ≤ m g
      → (y : ℕ) × (m' : Memory) × (allocator_alloc fuel a m ≡ ok y m')
        × Took a m e bs fs (need a m) y m'
  alloc-Took g i l =
      let x = first_fit locked (need a m) fs in
      let ff = first_fit_large locked (need a m) g fs i (ground (arith, listed_size g i)) in
      let cut =
        FreeCut-has a locked e x (first_block a) bs locked-IsValid.tiled
          (rw (v.listed x) at (ff.0)) in
      let done = Took-at x cut.size cut.before cut.after cut.whole cut.front refl ff.1 in
      (x + 24, _, done.0, done.1)
