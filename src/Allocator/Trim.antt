-- ===== src/Allocator/Trim.antt =====
-- `allocator_trim`: a message gives back the end of its block (src/shmem/allocator.c).
use libkrossbar.Prelude.{
  ℕ, ◌+◌, ◌-◌, ◌%◌, ◌^◌, ◌≤◌, ◌<◌, ◌≡◌, ◌≢◌, inl, true, List, ◌∷◌, ◌++◌, arith,
}
use libkrossbar.Memory.{Memory, write, ok, add_size, align}
use libkrossbar.Allocator.Fields.{
  Allocator, allocated, free, futex_of, free_size_of, max_message_size_of,
}
use libkrossbar.Allocator.{allocator_trim, trim_block, allocator_lock, allocator_unlock}
use libkrossbar.Allocator.Layout.{Block, block, HasBlock, Tiled, Tiled-front, Tiled-le}
use libkrossbar.Allocator.Payload.{in_payload, payload-bounds}
use libkrossbar.Allocator.Validity.{first_block, IsValid, back}
use libkrossbar.Allocator.Attach.{IsPending, IsPending_of_IsValid, added}
use libkrossbar.Allocator.Alloc.{header_write-IsValid}
use libkrossbar.Allocator.Split.{cut, split_block_lem, split-IsValid, split_ne, split_payload}

-- the size of the block that holds a payload of `n` bytes
abbrev pub block_for : ℕ → ℕ
block_for n = align n + 40

-- What `allocator_trim` leaves of a region that it has cut a block of, with the blocks `bs` and the
-- free list `fs` then.
pub record Trimmed (a : Allocator) (m : Memory) (e : ℕ) (bs : List Block) (fs : List ℕ)
    (m' : Memory) : Type 0 where
  pub valid : IsValid a m' e bs fs
  pub unlocked : m' (futex_of a) ≡ 0
  -- the account of free bytes stays as it was
  pub accounted : m' (free_size_of a) ≡ m (free_size_of a)
  pub configured : m' (max_message_size_of a) ≡ m (max_message_size_of a)
  pub below : (y : ℕ) → y < a.header → m' y ≡ m y
  -- the owners of the blocks find their words unchanged
  pub kept : (y : ℕ) → in_payload y (first_block a) bs ≡ true → m' y ≡ m y

module _ (a : Allocator) (m : Memory) (e : ℕ) (before after : List Block) (fs : List ℕ) (x s n : ℕ)
    (v : IsValid a m e (before ++ (block s allocated ∷ after)) fs)
    (front : Tiled a m (first_block a) before x) (unlocked : m (futex_of a) ≡ 0) (pos : 0 < n)
    (small : n + 160 < 2 ^ 64) where
  here : HasBlock a m x (block s allocated)
  here = (back a m e before after fs x (block s allocated) v front).0

  low : first_block a ≤ x
  low = Tiled-le a m x (first_block a) before front

  total-eq : add_size (add_size (align n) 24) 16 ≡ block_for n
  total-eq = omega arith

  total_aligned : block_for n % 8 ≡ 0
  total_aligned = omega arith

  total_bounds : (48 ≤ block_for n) × (block_for n + 104 < 2 ^ 64)
  total_bounds = omega arith

  block_of : x + 24 - 24 ≡ x
  block_of = omega arith

  -- On a valid region, with a positive new size below 2^64 - 160: `allocator_trim` leaves an
  -- allocated block, and the whole mapping, as it is when the rest would not hold a header, a
  -- footer and 64 bytes.
  pub trim-same : s < block_for n + 104 → allocator_trim a (x + 24) n m ≡ ok tt m
  unfolding allocator_trim trim_block
  trim-same short =
      rw (block_of, total-eq)
        (ground (arith, here.size_tag, here.type_tag, low, total_aligned, total_bounds))

  module _ (long : block_for n + 104 ≤ s) where
    locked : Memory
    locked = write m (futex_of a) 1

    locked-IsValid : IsValid a locked e (before ++ (block s allocated ∷ after)) fs
    unfolding locked
    locked-IsValid =
        header_write-IsValid a m e (futex_of a) 1 _ fs v (omega arith) (omega arith) (omega arith)

    pending : IsPending a locked e before x s after fs
    pending =
        IsPending_of_IsValid a locked e before after fs x s locked-IsValid
          (Tiled-front a m locked (first_block a) e x before _ front locked-IsValid.tiled)

    abbrev shortened : Memory
    shortened = added a (cut locked x (block_for n)) (x + block_for n)

    shortened_ne : (y : ℕ) → y < a.header + 32 → shortened y ≡ locked y
    shortened_ne y lt =
        split_ne a locked e before x s after fs pending (block_for n) (total_bounds.0) (omega arith)
          total_aligned y (omega arith) (inl (omega (arith, low)))

    locked_futex : locked (futex_of a) ≡ 1
    unfolding locked write
    locked_futex = ground arith

    locked_ne : (y : ℕ) → y ≢ futex_of a → locked y ≡ m y
    unfolding locked write
    locked_ne y ne = ground arith

    shortened_payload :
        (y : ℕ)
        → in_payload y
            (first_block a)
            (before ++ (block (block_for n) allocated ∷ block (s - block_for n) free ∷ after))
          ≡ true
        → write shortened (futex_of a) 0 y ≡ m y
    unfolding write
    shortened_payload y h =
        let high =
          payload-bounds a shortened e y (first_block a) _
            (split-IsValid a locked e before x s after fs pending (block_for n) (total_bounds.0)
              (omega arith) total_aligned).tiled
            h in
        ground (
          arith,
          high,
          split_payload a locked e before x s after fs pending (block_for n) (total_bounds.0)
              (omega arith) total_aligned y h,
          locked_ne y,
        )

    -- On a valid, unlocked region, with a positive new size below 2^64 - 160: `allocator_trim` cuts
    -- an allocated block to the new size when the rest holds a header, a footer and 64 bytes, and
    -- lists the rest as free; the region is valid and unlocked, and the account of free bytes is as
    -- it was.
    pub trim-split :
        (m' : Memory) × (allocator_trim a (x + 24) n m ≡ ok tt m')
        × Trimmed a m e
            (before ++ (block (block_for n) allocated ∷ block (s - block_for n) free ∷ after))
            ((x + block_for n) ∷ fs)
            m'
    unfolding allocator_trim trim_block allocator_lock allocator_unlock locked
    trim-split = (
      write shortened (futex_of a) 0,
      rw (block_of, total-eq)
          (ground (
            arith,
            here.size_tag,
            here.type_tag,
            low,
            total_aligned,
            total_bounds,
            split_block_lem a locked e before x s after fs pending (block_for n) (total_bounds.0)
                (omega arith) total_aligned,
            shortened_ne (futex_of a),
            locked_futex,
          )),
      record {
        valid =
            header_write-IsValid a shortened e (futex_of a) 0 _ _
              (split-IsValid a locked e before x s after fs pending (block_for n) (total_bounds.0)
                (omega arith) total_aligned)
              (omega arith) (omega arith) (omega arith);
        unlocked = unfold write in ground arith;
        accounted =
            unfold write in
            ground (arith, shortened_ne (free_size_of a), locked_ne (free_size_of a));
        configured =
            unfold write in
            ground (arith, shortened_ne (max_message_size_of a), locked_ne (max_message_size_of a));
        below = λ y lt. unfold write in ground (arith, lt, shortened_ne y, locked_ne y);
        kept = shortened_payload;
      },
    )
