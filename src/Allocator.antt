-- ===== src/Allocator.antt =====
-- The block allocator of src/shmem/allocator.c, function by function, on the words of the mapping.
-- Pointers are addresses; a pointer moved by an offset stays in the address space, so it is moved
-- by plain sums, while `size_t` values wrap. Assertions are on, as in a debug build.
pub mod Fields
pub mod Tags
pub mod FreeList
pub mod Layout
pub mod Unlink
pub mod Validity
pub mod Payload
pub mod Detach
pub mod Attach
pub mod Split
pub mod Alloc
pub mod Requests
pub mod Neighbours
pub mod Merge
pub mod Coalesce
pub mod Release
pub mod Create
pub mod Trim
pub mod Released
pub mod Fuel
pub mod Runs
pub mod Answers
pub mod Bounds
pub mod Tests
mod RunTests
use libkrossbar.Prelude.{
  ℕ, zero, suc, ◌+◌, ◌-◌, ◌%◌, Bool, true, false, not, ◌&&◌, Option, none, some, ltb, ◌==◌,
  if◌then◌else◌,
}
use libkrossbar.Memory.{
  Cmd, aborted, blocked, out_of_fuel, pure, ◌>>=◌, ◌>>◌, load, store, load_u32, store_u32, assert,
  add_size, sub_size, null, null_offset, alignment, align,
}
use libkrossbar.Allocator.Fields.{
  BlockType, free, allocated, code, Allocator, futex_of, total_size_of, free_size_of,
  max_message_size_of, next_free_of, size_of, type_of, next_of, allocator_size, header_size,
  block_header_size, block_footer_size, min_block_size,
}

-- `allocator_lock` in a process that runs alone: nobody would wake it from the futex. The word of the
-- futex stands for its 32 bits alone; the padding behind them is no part of it.
pub allocator_lock : Allocator → Cmd (Unit {0})
allocator_lock a = do
  held ← load (futex_of a)
  if held == 0 then store (futex_of a) 1 else λ _. blocked

-- `allocator_unlock`: the compare-and-exchange leaves a futex that is not 1 alone.
pub allocator_unlock : Allocator → Cmd (Unit {0})
allocator_unlock a = do
  held ← load (futex_of a)
  if held == 1 then store (futex_of a) 0 else pure tt

pub block_offset : Allocator → ℕ → ℕ
block_offset a block = block - a.header

-- the bound that `allocator_offset_to_block` asserts of an offset
abbrev pub in_range : ℕ → ℕ → Bool
in_range total offset =
    if offset == null_offset
    then true
    else ltb offset total && (ltb 0 offset && (offset % alignment == 0))

pub offset_to_block : Allocator → ℕ → Cmd ℕ
offset_to_block a offset = do
  total ← load (total_size_of a)
  assert (in_range total offset)
  pure (if offset == null_offset then null else a.header + offset)

pub write_block_tags : (block size : ℕ) → BlockType → Cmd (Unit {0})
write_block_tags block size type = do
  assert (not (block == null))
  assert (ltb 0 size)
  store (size_of block) size
  store_u32 (type_of block) (code type)
  let footer = block + size - block_footer_size
  store (size_of footer) size
  store_u32 (type_of footer) (code type)

pub add_free_block : Allocator → ℕ → Cmd (Unit {0})
add_free_block a block = do
  assert (not (block == null))
  size ← load (size_of block)
  write_block_tags block size free
  head ← load (next_free_of a)
  store (next_of block) head
  store (next_free_of a) (block_offset a block)

-- What both branches of `allocator_remove_free_block` do once `link` is the word that holds the
-- offset of `block`.
pub unlink_block : (link block : ℕ) → Cmd (Unit {0})
unlink_block link block = do
  next ← load (next_of block)
  store link next
  store (next_of block) null_offset
  size ← load (size_of block)
  write_block_tags block size allocated

-- The walk over the free list; `assert(false)` at its end.
pub remove_loop : ℕ → Allocator → (block current : ℕ) → Cmd (Unit {0})
remove_loop zero a block current = λ _. out_of_fuel
remove_loop (suc k) a block current = if current == null then (λ _. aborted) else do
  next ← load (next_of current)
  if next == block_offset a block
      then unlink_block (next_of current) block
      else (offset_to_block a next >>= λ following. remove_loop k a block following)

pub remove_free_block : ℕ → Allocator → ℕ → Cmd (Unit {0})
remove_free_block fuel a block = do
  assert (not (block == null))
  head ← load (next_free_of a)
  assert (not (head == null_offset))
  if head == block_offset a block
      then unlink_block (next_free_of a) block
      else (offset_to_block a head >>= λ first. remove_loop fuel a block first)

-- The part of `allocator_create` behind its checks.
pub initialise : (memory total max_message : ℕ) → Cmd (Option Allocator)
initialise memory total max_message = do
  let a : Allocator = record { header = memory }
  store (futex_of a) 0
  store (total_size_of a) (sub_size total header_size)
  store (free_size_of a) (sub_size total header_size)
  store (next_free_of a) null_offset
  store (max_message_size_of a) (align max_message)
  let first = memory + header_size
  store (next_of first) null_offset
  write_block_tags first (sub_size total header_size) free
  add_free_block a first
  pure (some a)

-- `malloc_ok` says whether `malloc` gave the handle; `none` is the `NULL` result.
pub allocator_create : Bool → (memory total max_message : ℕ) → Cmd (Option Allocator)
allocator_create malloc_ok memory total max_message = do
  assert (not (memory == null))
  assert (ltb 0 total)
  assert (ltb 0 max_message)
  assert (not (ltb total max_message))
  if ltb total (add_size (add_size allocator_size (align max_message)) block_header_size)
      then pure none
      else (if malloc_ok then initialise memory total max_message else pure none)

-- The search of `allocator_alloc`, which stops at the first block that is large enough.
pub find_loop : ℕ → Allocator → (alloc_size block : ℕ) → Cmd ℕ
find_loop zero a alloc_size block = λ _. out_of_fuel
find_loop (suc k) a alloc_size block = if block == null then pure null else do
  size ← load (size_of block)
  if ltb size alloc_size
      then (load (next_of block) >>= λ next.
          offset_to_block a next >>= λ following. find_loop k a alloc_size following)
      else pure block

-- The part of `allocator_trim_block` behind its size test and its lock.
pub split_block : Allocator → (block new_size : ℕ) → Cmd (Unit {0})
split_block a block new_size = do
  let new_offset = add_size (block_offset a block) new_size
  new_block ← offset_to_block a new_offset
  size ← load (size_of block)
  write_block_tags new_block (sub_size size new_size) free
  next ← load (next_of block)
  store (next_of new_block) next
  write_block_tags block new_size allocated
  add_free_block a new_block

pub trim_block : Allocator → (block new_size : ℕ) → (lock : Bool) → Cmd (Unit {0})
trim_block a block new_size lock = do
  assert (not (block == null))
  assert (ltb 0 new_size)
  assert (new_size % alignment == 0)
  type ← load_u32 (type_of block)
  assert (type == code allocated)
  size ← load (size_of block)
  if ltb size (add_size new_size min_block_size) then pure tt else do
    if lock then allocator_lock a else pure tt
    split_block a block new_size
    if lock then allocator_unlock a else pure tt

-- `allocator_trim`: what a message does not use goes back.
pub allocator_trim : Allocator → (pointer new_size : ℕ) → Cmd (Unit {0})
allocator_trim a pointer new_size = do
  assert (not (pointer == null))
  assert (ltb 0 new_size)
  let total = add_size (add_size (align new_size) block_header_size) block_footer_size
  trim_block a (pointer - block_header_size) total true

-- What `allocator_alloc` does with the block that its search found.
pub take_block : ℕ → Allocator → (alloc_size block : ℕ) → Cmd ℕ
take_block fuel a alloc_size block = do
  remove_free_block fuel a block
  trim_block a block alloc_size false
  size ← load (size_of block)
  write_block_tags block size allocated
  free_size ← load (free_size_of a)
  store (free_size_of a) (sub_size free_size size)
  allocator_unlock a
  pure (block + block_header_size)

-- The result is the payload's address, `null` where no block is large enough.
pub allocator_alloc : ℕ → Allocator → Cmd ℕ
allocator_alloc fuel a = do
  max_message ← load (max_message_size_of a)
  let alloc_size = add_size (add_size max_message block_header_size) block_footer_size
  allocator_lock a
  head ← load (next_free_of a)
  first ← offset_to_block a head
  block ← find_loop fuel a alloc_size first
  if block == null then (allocator_unlock a >> pure null) else take_block fuel a alloc_size block

pub prev_adjacent_free_block : Allocator → ℕ → Cmd ℕ
prev_adjacent_free_block a block = do
  assert (not (block == null))
  let footer = block - block_footer_size
  type ← load_u32 (type_of footer)
  if type == code free
      then (load (size_of footer) >>= λ size.
          offset_to_block a (sub_size (block_offset a block) size))
      else pure null

pub next_adjacent_free_block : Allocator → ℕ → Cmd ℕ
next_adjacent_free_block a block = do
  assert (not (block == null))
  size ← load (size_of block)
  next_block ← offset_to_block a (add_size (block_offset a block) size)
  type ← load_u32 (type_of next_block)
  pure (if type == code free then next_block else null)

-- `block` and the block right behind it become one; `removed` leaves the free list.
pub merge_blocks : ℕ → Allocator → (removed block behind : ℕ) → Cmd (Unit {0})
merge_blocks fuel a removed block behind = do
  remove_free_block fuel a removed
  size ← load (size_of block)
  more ← load (size_of behind)
  store (size_of block) (add_size size more)
  write_block_tags block (add_size size more) free

-- The second half of `allocator_coalesce_free_blocks`.
pub coalesce_next : ℕ → Allocator → ℕ → Cmd (Unit {0})
coalesce_next fuel a block = do
  next ← next_adjacent_free_block a block
  if next == null then pure tt else merge_blocks fuel a next block next

pub coalesce_free_blocks : ℕ → Allocator → ℕ → Cmd (Unit {0})
coalesce_free_blocks fuel a block = do
  assert (not (block == null))
  type ← load_u32 (type_of block)
  assert (type == code free)
  prev ← prev_adjacent_free_block a block
  if prev == null then pure tt else merge_blocks fuel a block prev block
  coalesce_next fuel a (if prev == null then block else prev)

pub allocator_free : ℕ → Allocator → ℕ → Cmd (Unit {0})
allocator_free fuel a pointer = do
  assert (not (pointer == null))
  allocator_lock a
  let block = pointer - block_header_size
  free_size ← load (free_size_of a)
  size ← load (size_of block)
  store (free_size_of a) (add_size free_size size)
  add_free_block a block
  coalesce_free_blocks fuel a block
  allocator_unlock a
