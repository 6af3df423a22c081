-- ===== src/Allocator/Release.antt =====
-- The contract of `allocator_free` (src/shmem/allocator.c): the block goes back to the free list
-- and becomes one with its free neighbours.
use libkrossbar.Prelude.{
  ℕ, ◌+◌, ◌-◌, ◌≤◌, ◌<◌, ◌≡◌, refl, sym, ap, ◌⊎◌, inl, inr, true, false, List, [], ◌∷◌, ◌++◌, arith,
  ◌==◌, ◌∙◌, subst, length, append_assoc,
}
use libkrossbar.Memory.{Memory, write, ok, aborted, null, add_size, ◌>>◌}
use libkrossbar.Allocator.Fields.{
  BlockType, Allocator, free, allocated, futex_of, free_size_of, next_free_of, max_message_size_of,
}
use libkrossbar.Allocator.{
  coalesce_next, coalesce_free_blocks, allocator_free, allocator_lock, allocator_unlock,
}
use libkrossbar.Allocator.Layout.{
  Block, block, HasBlock, Tiled, Tiled-front, Tiled-append, Tiled-le,
}
use libkrossbar.Allocator.Payload.{in_payload, payload-join, payload-header, payload-Outside}
use libkrossbar.Allocator.Validity.{first_block, IsValid, back}
use libkrossbar.Allocator.Attach.{
  IsPending, IsPending_of_IsValid, added, added_ne, add_free_block_lem, added-IsValid, added_head,
}
use libkrossbar.Allocator.Alloc.{header_write-IsValid}
use libkrossbar.Allocator.Neighbours.{next_adjacent_end}
use libkrossbar.Allocator.Coalesce.{
  joined, payload-joined, IsBusy, Coalesced, coalesce_busy, coalesce_free, coalesce_busy-next,
}

-- No free block ends where `before` ends.
abbrev pub NotFree : List Block → Type 0
NotFree before =
    (before ≡ []) ⊎ ((b : List Block) × (r : ℕ) × (before ≡ b ++ (block r allocated ∷ [])))

-- What `allocator_free` has done: the blocks that fill the region, with `s` bytes more on the
-- account of free ones.
pub record Freed (a : Allocator) (m : Memory) (e s : ℕ) (blocks : List Block) (m' : Memory)
    : Type 0 where
  pub list : List ℕ
  pub valid : IsValid a m' e blocks list
  pub accounted : m' (free_size_of a) ≡ add_size (m (free_size_of a)) s
  pub unlocked : m' (futex_of a) ≡ 0
  pub configured : m' (max_message_size_of a) ≡ m (max_message_size_of a)
  pub below : (y : ℕ) → y < a.header → m' y ≡ m y
  -- the owners of the blocks that stay allocated find their words unchanged
  pub kept : (y : ℕ) → in_payload y (first_block a) blocks ≡ true → m' y ≡ m y

module _ (a : Allocator) (m : Memory) (e : ℕ) (before rest : List Block) (fs : List ℕ) (x s : ℕ)
    (v : IsValid a m e (before ++ (block s allocated ∷ rest)) fs)
    (front : Tiled a m (first_block a) before x) (unlocked : m (futex_of a) ≡ 0) (fuel : ℕ) where
  charged : Memory
  charged = write (write m (futex_of a) 1) (free_size_of a) (add_size (m (free_size_of a)) s)

  charged-IsValid : IsValid a charged e (before ++ (block s allocated ∷ rest)) fs
  unfolding charged
  charged-IsValid =
      header_write-IsValid a _ e (free_size_of a) _ _ fs
        (header_write-IsValid a m e (futex_of a) 1 _ fs v (omega arith) (omega arith) (omega arith))
        (omega arith) (omega arith) (omega arith)

  charged-front : Tiled a charged (first_block a) before x
  charged-front = Tiled-front a m charged (first_block a) e x before _ front charged-IsValid.tiled

  pending : IsPending a charged e before x s rest fs
  pending = IsPending_of_IsValid a charged e before rest fs x s charged-IsValid charged-front

  abbrev listed : Memory
  listed = added a charged x

  listed-IsValid : IsValid a listed e (before ++ (block s free ∷ rest)) (x ∷ fs)
  listed-IsValid = added-IsValid a charged e before x s rest fs pending

  listed-front : Tiled a listed (first_block a) before x
  listed-front = Tiled-front a m listed (first_block a) e x before _ front listed-IsValid.tiled

  x_here : HasBlock a m x (block s allocated)
  x_here = (back a m e before rest fs x (block s allocated) v front).0

  x_low : first_block a ≤ x
  x_low = Tiled-le a m x (first_block a) before front

  charged_futex : charged (futex_of a) ≡ 1
  unfolding charged write
  charged_futex = ground arith

  charged_max : charged (max_message_size_of a) ≡ m (max_message_size_of a)
  unfolding charged write
  charged_max = ground arith

  charged_free_size : charged (free_size_of a) ≡ add_size (m (free_size_of a)) s
  unfolding charged write
  charged_free_size = ground arith

  listed_header : (y : ℕ) → y < a.header + 32 → listed y ≡ charged y
  listed_header y lt =
      added_ne a charged e before x s rest fs pending y (omega arith) (inl (omega (arith, x_low)))

  locked_words :
      (write m (futex_of a) 1 (free_size_of a) ≡ m (free_size_of a))
      × (write m (futex_of a) 1 x ≡ s)
  unfolding write
  locked_words = (ground arith, ground (arith, x_low, x_here.size_tag))

  -- Up to the coalescing, the block joins the free list and the account of free bytes.
  free-coalesce :
      allocator_free fuel a (x + 24) m
      ≡ (coalesce_free_blocks fuel a x >> allocator_unlock a) listed
  unfolding allocator_free allocator_lock charged
  free-coalesce =
      rw
        (
          payload,
          block_of,
          unlocked,
          locked_words.0,
          locked_words.1,
          add_free_block_lem a
              (write (write m (futex_of a) 1) (free_size_of a) (add_size (m (free_size_of a)) s)) e
              before x s rest fs pending,
        )
        refl
    where
      payload : (x + 24 == null) ≡ false
      payload = ground arith

      block_of : x + 24 - 24 ≡ x
      block_of = omega arith

  -- The end of a run whose coalescing has come through.
  free-Freed :
      (blocks : List Block) (m' : Memory)
      → coalesce_free_blocks fuel a x listed ≡ ok tt m'
      → Coalesced a e listed blocks m'
      → ((y : ℕ)
          → in_payload y (first_block a) blocks
            ≡ in_payload y (first_block a) (before ++ (block s free ∷ rest)))
      → (allocator_free fuel a (x + 24) m ≡ ok tt (write m' (futex_of a) 0))
        × Freed a m e s blocks (write m' (futex_of a) 0)
  unfolding allocator_unlock
  free-Freed blocks m' run c others = (
    rw (free-coalesce, run, held),
    record {
      list = c.list;
      valid =
          header_write-IsValid a m' e (futex_of a) 0 blocks c.list c.valid (omega arith)
            (omega arith) (omega arith);
      accounted =
          unfold write in
          ground
            (arith, c.header (free_size_of a), listed_header (free_size_of a), charged_free_size);
      unlocked = unfold write in ground arith;
      configured =
          unfold write in
          ground (
            arith,
            c.header (max_message_size_of a),
            listed_header (max_message_size_of a),
            charged_max,
          );
      below = λ y lt. unfold write charged in ground (arith, lt, c.header y, listed_header y);
      kept = λ y h.
          let h' = sym (others y) ∙ h in
          let high =
            payload-header a listed e before rest (x ∷ fs) x s listed-IsValid listed-front y h' in
          let same : m' y ≡ charged y =
            c.kept y h
            ∙ added_ne a charged e before x s rest fs pending y (omega (arith, high)) (
                payload-Outside a listed e before rest (x ∷ fs) x s listed-IsValid listed-front y
                  h') in
          unfold write charged in ground (arith, high, same);
    },
  )
    where
      held : m' (futex_of a) ≡ 1
      held = ground (arith, c.header (futex_of a), listed_header (futex_of a), charged_futex)

  listed_head : listed (next_free_of a) ≡ x - a.header
  listed_head = added_head a charged e before x s rest fs pending

  listed-IsBusy : NotFree before → IsBusy a listed before
  listed-IsBusy (inl none) = inl (none, listed_head ∙ omega (arith, first))
    where
      first : first_block a ≡ x
      first = subst (λ l. Tiled a m (first_block a) l x) none front
  listed-IsBusy (inr some') = inr some'

  -- On a valid, unlocked region with more fuel than free blocks: freeing an allocated block of `s`
  -- bytes that no free block precedes, with any block behind it, returns. It becomes a free block,
  -- and takes in the block behind when that is free; the region is valid again, the account of free
  -- bytes is more by `s`, and the lock is released.
  pub free-busy :
      (t : ℕ) (type : BlockType) (after : List Block)
      → rest ≡ block t type ∷ after
      → NotFree before
      → length fs < fuel
      → (m' : Memory) × (allocator_free fuel a (x + 24) m ≡ ok tt m')
        × Freed a m e s (before ++ joined s t type after) m'
  free-busy t type after is busy enough =
      let done =
        coalesce_busy a listed e before rest (x ∷ fs) x s listed-IsValid listed-front t type after
          fuel is (omega arith) (listed-IsBusy busy) in
      let result = free-Freed _ done.0 done.1 done.2 λ y.
        payload-joined a m y before after x s t type front
        ∙ ap (λ l. in_payload y (first_block a) (before ++ (block s free ∷ l))) (sym is) in
      (write done.0 (futex_of a) 0, result.0, result.1)

  -- On a valid, unlocked region: freeing the allocated block that ends it, when no free block
  -- precedes it, fails an assertion.
  pub free-last : rest ≡ [] → NotFree before → allocator_free fuel a (x + 24) m ≡ aborted
  unfolding coalesce_next
  free-last none busy =
      rw
        (
          free-coalesce,
          coalesce_busy-next a listed e before rest (x ∷ fs) x s listed-IsValid listed-front fuel
              (listed-IsBusy busy),
          next_adjacent_end a listed e before (x ∷ fs) x (block s free)
              (subst (λ l. IsValid a listed e (before ++ (block s free ∷ l)) (x ∷ fs)) none
                listed-IsValid)
              listed-front,
        )
        refl

-- On a valid, unlocked region with more fuel than free blocks: freeing an allocated block of `s`
-- bytes that stands right behind a free block, with any block behind it, returns. The free block
-- takes it in, and takes in the block behind when that is free too; the region is valid again, the
-- account of free bytes is more by `s`, and the lock is released.
pub free-joins :
    (a : Allocator) (m : Memory) (e : ℕ) (before after : List Block) (fs : List ℕ) (y r s t : ℕ)
    (type : BlockType) (fuel : ℕ)
    → IsValid a m e (before ++ (block r free ∷ block s allocated ∷ block t type ∷ after)) fs
    → Tiled a m (first_block a) before y
    → m (futex_of a) ≡ 0
    → length fs < fuel
    → (m' : Memory) × (allocator_free fuel a (y + r + 24) m ≡ ok tt m')
      × Freed a m e s (before ++ joined (r + s) t type after) m'
free-joins a m e before after fs y r s t type fuel v front unlocked enough =
    let result =
      free-Freed a m e before' rest fs (y + r) s v' front' unlocked fuel _ done.0 done.1 done.2
        others in
    (write done.0 (futex_of a) 0, result.0, result.1)
  where
    before' : List Block
    before' = before ++ (block r free ∷ [])

    rest : List Block
    rest = block t type ∷ after

    y_here : HasBlock a m y (block r free)
    y_here = (back a m e before (block s allocated ∷ rest) fs y (block r free) v front).0

    v' : IsValid a m e (before' ++ (block s allocated ∷ rest)) fs
    v' =
        subst (λ l. IsValid a m e l fs)
          (sym (append_assoc before (block r free ∷ []) (block s allocated ∷ rest))) v

    front' : Tiled a m (first_block a) before' (y + r)
    front' =
        Tiled-append a m (y + r) (first_block a) before (block r free ∷ []) y front (y_here, refl)

    m' : Memory
    m' = listed a m e before' rest fs (y + r) s v' front' unlocked fuel

    m'-IsValid : IsValid a m' e (before ++ (block r free ∷ block s free ∷ rest)) ((y + r) ∷ fs)
    m'-IsValid =
        subst (λ l. IsValid a m' e l ((y + r) ∷ fs))
          (append_assoc before (block r free ∷ []) (block s free ∷ rest))
          (listed-IsValid a m e before' rest fs (y + r) s v' front' unlocked fuel)

    done :
        (n : Memory) × (coalesce_free_blocks fuel a (y + r) m' ≡ ok tt n)
        × Coalesced a e m' (before ++ joined (r + s) t type after) n
    done =
        coalesce_free a m' e before rest ((y + r) ∷ fs) y r s m'-IsValid
          (Tiled-front a m m' (first_block a) e y before _ front m'-IsValid.tiled) fuel
          (omega arith) t type after refl

    others :
        (q : ℕ)
        → in_payload q (first_block a) (before ++ joined (r + s) t type after)
          ≡ in_payload q (first_block a) (before' ++ (block s free ∷ rest))
    others q =
        payload-joined a m q before after y (r + s) t type front
        ∙ payload-join a m q (first_block a) before rest y r s front
        ∙ ap (in_payload q (first_block a))
            (sym (append_assoc before (block r free ∷ []) (block s free ∷ rest)))
