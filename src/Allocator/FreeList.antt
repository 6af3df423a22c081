-- ===== src/Allocator/FreeList.antt =====
-- The free list of src/shmem/allocator.c as the list of blocks that its offsets lead through, and
-- the two walks over it.
use libkrossbar.Prelude.{
  ℕ, zero, suc, ◌+◌, ◌≤◌, ◌<◌, ◌≡◌, refl, ◌≢◌, Bool, true, false, ◌||◌, List, [], ◌∷◌, arith, ltb,
  ◌==◌, if◌then◌else◌, length,
}
use libkrossbar.Memory.{Memory, write, ok, null, null_offset}
use libkrossbar.Allocator.Fields.{
  Allocator, allocated, total_size_of, next_free_of, size_of, next_of,
}
use libkrossbar.Allocator.Tags.{tagged, write_block_tags_lem}
use libkrossbar.Allocator.{
  in_range, block_offset, offset_to_block, find_loop, remove_loop, unlink_block, remove_free_block,
}

abbrev pub has : ℕ → List ℕ → Bool
has x [] = false
has x (f ∷ fs) = (f == x) || has x fs

-- From the offset `offset` the `next_free_block_offset` fields lead through `fs` to `NULL_OFFSET`.
abbrev pub Chain : Allocator → Memory → ℕ → List ℕ → Type 0
Chain a m offset [] = offset ≡ null_offset
Chain a m offset (f ∷ fs) =
    (offset ≢ null_offset)
    × (f ≡ a.header + offset)
    × (in_range (m (total_size_of a)) offset ≡ true)
    × Chain a m (m (next_of f)) fs

abbrev pub first_of_list : List ℕ → ℕ
first_of_list [] = null
first_of_list (f ∷ _) = f

-- the first block of the list that is large enough
unfoldable pub first_fit : Memory → ℕ → List ℕ → ℕ
first_fit m need [] = null
first_fit m need (f ∷ fs) = if ltb (m (size_of f)) need then first_fit m need fs else f

-- the word that holds the offset of `block`, `link` for the first of the list
unfoldable pub link_of : ℕ → List ℕ → ℕ → ℕ
link_of link [] block = link
link_of link (f ∷ fs) block = if f == block then link else link_of (next_of f) fs block

-- the memory after a block has been unlinked
unfoldable pub unlinked : Memory → (link block : ℕ) → Memory
unlinked m link block =
    let m' = write (write m link (m (next_of block))) (next_of block) null_offset in
    tagged m' block (m' (size_of block)) allocated

module _ (a : Allocator) (m : Memory) where
  pub offset_to_block_lem :
      (offset : ℕ)
      → in_range (m (total_size_of a)) offset ≡ true
      → offset_to_block a offset m
        ≡ ok (if offset == null_offset then null else a.header + offset) m
  unfolding offset_to_block
  offset_to_block_lem offset h = rw h

  pub offset_to_block-Chain :
      (offset : ℕ) (fs : List ℕ)
      → Chain a m offset fs
      → offset_to_block a offset m ≡ ok (first_of_list fs) m
  offset_to_block-Chain offset [] c = ground (arith, offset_to_block_lem offset)
  offset_to_block-Chain offset (f ∷ fs) c = ground (arith, offset_to_block_lem offset)

  pub find_loop_lem :
      (k need offset : ℕ) (fs : List ℕ)
      → 0 < a.header
      → Chain a m offset fs
      → length fs < k
      → find_loop k a need (first_of_list fs) m ≡ ok (first_fit m need fs) m
  unfolding find_loop first_fit
  find_loop_lem zero need offset fs h c l = absurd (omega arith)
  find_loop_lem (suc k) need offset [] h c l = refl
  find_loop_lem (suc k) need offset (f ∷ fs) h c l = ground (
    arith,
    offset_to_block-Chain (m (next_of f)) fs c.3,
    find_loop_lem k need (m (next_of f)) fs h c.3,
  )

  pub remove_loop_lem :
      (k block offset f : ℕ) (fs : List ℕ)
      → 0 < a.header
      → Chain a m offset (f ∷ fs)
      → has block fs ≡ true
      → length fs < k
      → remove_loop k a block f m ≡ unlink_block (link_of (next_of f) fs block) block m
  unfolding remove_loop link_of block_offset
  remove_loop_lem zero block offset f fs h c i l = absurd (omega arith)
  remove_loop_lem (suc k) block offset f [] h c i l = absurd (ground arith)
  remove_loop_lem (suc k) block offset f (g ∷ gs) h c i l = ground (
    arith,
    offset_to_block-Chain (m (next_of f)) (g ∷ gs) c.3,
    remove_loop_lem k block (m (next_of f)) g gs h c.3,
  )

  pub remove_free_block-Chain :
      (fuel block : ℕ) (fs : List ℕ)
      → 0 < a.header
      → Chain a m (m (next_free_of a)) fs
      → has block fs ≡ true
      → length fs ≤ fuel
      → block ≢ null
      → remove_free_block fuel a block m ≡ unlink_block (link_of (next_free_of a) fs block) block m
  unfolding remove_free_block link_of block_offset
  remove_free_block-Chain fuel block [] h c i l ne = absurd (ground arith)
  remove_free_block-Chain fuel block (f ∷ fs) h c i l ne = ground (
    arith,
    offset_to_block-Chain (m (next_free_of a)) (f ∷ fs) c,
    remove_loop_lem fuel block (m (next_free_of a)) f fs h c,
  )

  relinked_size :
      (link block : ℕ)
      → link ≢ block
      → write (write m link (m (next_of block))) (next_of block) null_offset block ≡ m block
  unfolding write
  relinked_size link block h = ground arith

  pub unlink_block_lem :
      (link block : ℕ)
      → block ≢ null
      → link ≢ block
      → 0 < m block
      → unlink_block link block m ≡ ok tt (unlinked m link block)
  unfolding unlink_block unlinked
  unlink_block_lem link block hb hl hs =
      write_block_tags_lem m' block (m' block) allocated hb
        (omega (arith, relinked_size link block hl))
    where
      m' : Memory
      m' = write (write m link (m (next_of block))) (next_of block) null_offset
