-- ===== src/Shm.antt =====
-- The transport over shared memory (src/shmem/transport_shm.c) with its event manager
-- (src/shmem/event_manager_shm.c), on the words of one mapping: an arena's header stands at its
-- start, the allocator's region behind it. A 32-bit field of the arena has a word of its own. What
-- io_uring is asked for is the caller's matter, and so is what the transport hands to `free`.
pub mod Queue
pub mod Append
pub mod Receive
pub mod Region
pub mod Blocks
pub mod Send
pub mod Drafts
pub mod Mapping
pub mod Setup
pub mod Events
pub mod Delivery
pub mod Tests
use libkrossbar.Prelude.{
  ℕ, ◌+◌, ◌-◌, ◌*◌, ◌/◌, ◌%◌, ◌^◌, Bool, true, false, not, Option, none, some, ltb, ◌==◌,
  if◌then◌else◌,
}
use libkrossbar.Memory.{
  Memory, Cmd, blocked, pure, ◌>>=◌, ◌>>◌, load, store, assert, add_size, sub_size, null,
  null_offset, align,
}
use libkrossbar.Allocator.Fields.{Allocator}
use libkrossbar.Allocator.{
  in_range, allocator_alloc, allocator_trim, allocator_free, allocator_create,
}

-- `kb_arena_t`, without its file descriptor.
pub record Arena : Type 0 where
  pub header : ℕ
  pub allocator : Allocator

-- `kb_arena_header_t`
abbrev pub size_of : Arena → ℕ
size_of ar = ar.header

abbrev pub num_messages_of : Arena → ℕ
num_messages_of ar = ar.header + 8

abbrev pub futex_of : Arena → ℕ
futex_of ar = ar.header + 12

abbrev pub first_message_of : Arena → ℕ
first_message_of ar = ar.header + 16

abbrev pub last_message_of : Arena → ℕ
last_message_of ar = ar.header + 24

-- `kb_message_header_t`
abbrev pub message_size_of : ℕ → ℕ
message_size_of message = message

abbrev pub next_message_of : ℕ → ℕ
next_message_of message = message + 8

abbrev pub message_header_size : ℕ
message_header_size = align 16

abbrev pub arena_header_size : ℕ
arena_header_size = align 32

-- `arena_lock` in a process that runs alone: nobody would wake it from the futex.
pub arena_lock : Arena → Cmd (Unit {0})
arena_lock ar = do
  held ← load (futex_of ar)
  if held == 0 then store (futex_of ar) 1 else λ _. blocked

pub arena_unlock : Arena → Cmd (Unit {0})
arena_unlock ar = do held ← load (futex_of ar); if held == 1 then store (futex_of ar) 0 else pure tt

-- What `transport_shm_create_mapping` writes to a new mapping, all of whose words are 0.
pub create_mapping : (header buffer_size : ℕ) → Cmd (Unit {0})
create_mapping header buffer_size = do
  store (header + 16) null_offset
  store (header + 24) null_offset
  store header buffer_size
  store (header + 8) 0

-- `file_size` is what `fstat` tells of the mapping's file, `none` when it fails.
pub transport_shm_get_mapping_size : (file_size : Option ℕ) → ℕ
transport_shm_get_mapping_size none = 0
transport_shm_get_mapping_size (some size) = sub_size size arena_header_size

-- The part of `transport_shm_init` that writes: an allocator behind the header of the arena that it
-- sends through, `mapping_size` being what `transport_shm_get_mapping_size` answers.
pub create_write_allocator :
    (malloc_ok : Bool) → (header mapping_size max_message_size : ℕ) → Cmd (Option Allocator)
create_write_allocator malloc_ok header mapping_size max_message_size =
    allocator_create malloc_ok (header + arena_header_size)
      (sub_size mapping_size arena_header_size) (add_size max_message_size message_header_size)

-- The same with the check before it, when every other call of `transport_shm_init` succeeds.
pub init_write_arena :
    (malloc_ok : Bool) → (header mapping_size max_message_size : ℕ) → Cmd (Option Arena)
init_write_arena malloc_ok header mapping_size max_message_size =
    if ltb mapping_size max_message_size then pure none else do
      made ← create_write_allocator malloc_ok header mapping_size max_message_size
      pure (arena_of made)
  where
    arena_of : Option Allocator → Option Arena
    arena_of none = none
    arena_of (some a) = some (record { header = header; allocator = a })

pub transport_message_from_offset : Arena → ℕ → Cmd ℕ
transport_message_from_offset ar offset = do
  size ← load (size_of ar)
  assert (in_range size offset)
  pure (if offset == null_offset then null else ar.header + offset)

pub transport_message_offset : Arena → ℕ → ℕ
transport_message_offset ar message = if message == null then null_offset else message - ar.header

-- What `message_writer_init` and `doc_writer_from_buffer` both copy to the start of a document: the five
-- bytes 5, 0, 0, 0, 0, the other three of the word staying.
pub bson_header : ℕ → ℕ
bson_header word = word / 2 ^ 40 * 2 ^ 40 + 5

-- The header of a new message is written, and that of its document behind it, by
-- `message_writer_shm_init`; `none` is `NULL`.
pub transport_shm_message_init : ℕ → Arena → (max_message_size : ℕ) → Cmd (Option ℕ)
transport_shm_message_init fuel ar max_message_size = do
  chunk ← allocator_alloc fuel ar.allocator
  if chunk == null then pure none else do
    store (message_size_of chunk) max_message_size
    store (next_message_of chunk) null_offset
    word ← load (chunk + 16)
    store (chunk + 16) (bson_header word)
    pure (some chunk)

-- What `transport_shm_message_send` does between the lock and the unlock, and the count.
pub append_message : Arena → (message : ℕ) → Cmd (Unit {0})
append_message ar message = do
  let offset = transport_message_offset ar message
  arena_lock ar
  last ← load (last_message_of ar)
  if last == null_offset
      then store (first_message_of ar) offset
      else (transport_message_from_offset ar last >>= λ last_message.
          store (next_message_of last_message) offset)
  store (last_message_of ar) offset
  arena_unlock ar
  num ← load (num_messages_of ar)
  store (num_messages_of ar) ((num + 1) % 2 ^ 32)

-- `written` is `message_writer_size(writer)`.
pub transport_shm_message_send : Arena → (message written : ℕ) → Cmd (Unit {0})
transport_shm_message_send ar message written = do
  store (message_size_of message) written
  allocator_trim ar.allocator message (add_size written message_header_size)
  append_message ar message

-- The message at the head of the list leaves it.
pub take_message : Arena → (incoming : ℕ) → Cmd (Option ℕ)
take_message ar incoming = do
  arena_lock ar
  next ← load (next_message_of incoming)
  store (first_message_of ar) next
  if next == null_offset then store (last_message_of ar) null_offset else pure tt
  arena_unlock ar
  num ← load (num_messages_of ar)
  store (num_messages_of ar) ((num + (2 ^ 32 - 1)) % 2 ^ 32)
  pure (some incoming)

pub transport_shm_message_receive : Arena → Cmd (Option ℕ)
transport_shm_message_receive ar = do
  num ← load (num_messages_of ar)
  if num == 0 then pure none else do
    first ← load (first_message_of ar)
    incoming ← transport_message_from_offset ar first
    assert (not (incoming == null))
    take_message ar incoming

pub transport_shm_message_release : ℕ → Arena → (message : ℕ) → Cmd (Unit {0})
transport_shm_message_release fuel ar message = allocator_free fuel ar.allocator message
