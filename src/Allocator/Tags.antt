-- ===== src/Allocator/Tags.antt =====
-- What `allocator_write_block_tags` leaves in the mapping (src/shmem/allocator.c).
use libkrossbar.Prelude.{ℕ, ◌+◌, ◌-◌, ◌≤◌, ◌<◌, ◌≡◌, ◌≢◌, arith}
use libkrossbar.Memory.{Memory, write, ok, low_half, with_low_half, null}
use libkrossbar.Allocator.Fields.{
  BlockType, free, allocated, code, size_of, type_of, block_footer_size,
}
use libkrossbar.Allocator.{write_block_tags}

abbrev pub set_u32 : Memory → ℕ → ℕ → Memory
set_u32 m p v = write m p (with_low_half (m p) v)

-- The memory after the four stores, header first.
unfoldable pub tagged : Memory → (block size : ℕ) → BlockType → Memory
tagged m block size type =
    let footer = block + size - block_footer_size in
    set_u32
      (write (set_u32 (write m (size_of block) size) (type_of block) (code type)) (size_of footer)
        size)
      (type_of footer) (code type)

code-lt : (type : BlockType) → code type < 2
code-lt free = omega arith
code-lt allocated = omega arith

module _ (m : Memory) (block size : ℕ) (type : BlockType) where
  pub write_block_tags_lem :
      block ≢ null
      → 0 < size
      → write_block_tags block size type m ≡ ok tt (tagged m block size type)
  unfolding write_block_tags tagged
  write_block_tags_lem hb hs = ground arith

  -- Nothing changes but the four words.
  pub tagged_ne :
      (x : ℕ)
      → x ≢ block
      → x ≢ block + 8
      → x ≢ block + size - 16
      → x ≢ block + size - 16 + 8
      → tagged m block size type x ≡ m x
  unfolding tagged write
  tagged_ne x h1 h2 h3 h4 = ground arith

  pub tagged_size : 40 ≤ size → tagged m block size type block ≡ size
  unfolding tagged write
  tagged_size h = ground arith

  pub tagged_type : 40 ≤ size → low_half (tagged m block size type (block + 8)) ≡ code type
  unfolding tagged write
  tagged_type h = ground (arith, code-lt type)

  pub tagged_footer_size : 40 ≤ size → tagged m block size type (block + size - 16) ≡ size
  unfolding tagged write
  tagged_footer_size h = ground arith

  pub tagged_footer_type :
      40 ≤ size → low_half (tagged m block size type (block + size - 16 + 8)) ≡ code type
  unfolding tagged write
  tagged_footer_type h = ground (arith, code-lt type)
