-- ===== src/Allocator/Fields.antt =====
-- The structures of src/shmem/allocator.h: the address of each field of the allocator's header and
-- of a block's header and footer, and the sizes that allocator.c computes from them.
use libkrossbar.Prelude.{ℕ, ◌+◌}
use libkrossbar.Memory.{align}

pub data BlockType : Type 0 where
  free allocated : BlockType

abbrev pub code : BlockType → ℕ
code free = 0
code allocated = 1

-- `kb_allocator_t`, less its logger.
pub record Allocator : Type 0 where
  pub header : ℕ

-- `kb_allocator_header_t`
abbrev pub futex_of : Allocator → ℕ
futex_of a = a.header

abbrev pub total_size_of : Allocator → ℕ
total_size_of a = a.header + 8

abbrev pub free_size_of : Allocator → ℕ
free_size_of a = a.header + 16

abbrev pub max_message_size_of : Allocator → ℕ
max_message_size_of a = a.header + 24

abbrev pub next_free_of : Allocator → ℕ
next_free_of a = a.header + 32

-- `kb_block_header_t`; the first two fields are those of `kb_block_footer_t` too.
abbrev pub size_of : ℕ → ℕ
size_of block = block

abbrev pub type_of : ℕ → ℕ
type_of block = block + 8

abbrev pub next_of : ℕ → ℕ
next_of block = block + 16

-- `sizeof(kb_allocator_t)`: two pointers.
abbrev pub allocator_size : ℕ
allocator_size = 16

abbrev pub header_size : ℕ
header_size = align 40

abbrev pub block_header_size : ℕ
block_header_size = align 24

abbrev pub block_footer_size : ℕ
block_footer_size = align 16

abbrev pub min_block_size : ℕ
min_block_size = block_header_size + block_footer_size + 64
