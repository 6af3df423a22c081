-- ===== src/Shm/Setup.antt =====
-- The life of a transport over shared memory (src/shmem/transport_shm.c, with `allocator_attach` and
-- `allocator_destroy` of src/shmem/allocator.c): what is mapped and allocated for it, and what is
-- given back. What the system answers is an argument; addresses are pointers, 0 for `NULL`.
pub mod Failure
pub mod Lifetime
mod Tests
use libkrossbar.Prelude.{
  ℕ, ◌+◌, ◌-◌, Bool, true, false, not, Option, none, some, List, [], ◌∷◌, ◌++◌, ltb, ◌==◌,
  if◌then◌else◌,
}
use libkrossbar.Memory.{Cmd, pure, ◌>>=◌, ◌>>◌, load, assert, add_size, null}
use libkrossbar.Allocator.Fields.{Allocator, total_size_of}
use libkrossbar.Shm.{
  arena_header_size, create_mapping, transport_shm_get_mapping_size, create_write_allocator,
}

-- What is given back to the system.
pub data Release : Type 0 where
  munmap : (at size : ℕ) → Release
  close : (fd : ℕ) → Release
  free : (at : ℕ) → Release

-- `kb_allocator_t`, which `malloc` gave at `at`.
pub record Handle : Type 0 where
  pub at : ℕ
  pub allocator : Allocator

-- `kb_arena_t`
pub record SharedArena : Type 0 where
  pub header : ℕ
  pub allocator : Option Handle
  pub shm_fd : ℕ

-- `kb_transport_shm_t`, which `malloc` gave at `at`: the fields that are read again.
pub record Transport : Type 0 where
  pub at : ℕ
  pub name : ℕ
  pub event_manager : ℕ
  pub read_arena : SharedArena
  pub write_arena : SharedArena
  pub max_message_size : ℕ

-- `none` for the descriptor is the result -1. `map` is the address of the mapping of the header.
pub transport_shm_create_mapping :
    (memfd : Option ℕ)
    → (resized : Bool) → (map : Option ℕ) → (buffer_size : ℕ) → Cmd (Option ℕ × List Release)
transport_shm_create_mapping memfd resized map buffer_size =
    assert (ltb 0 buffer_size) >> made memfd resized map
  where
    made : Option ℕ → Bool → Option ℕ → Cmd (Option ℕ × List Release)
    made none resized map = pure (none, [])
    made (some fd) false map = pure (none, [])
    made (some fd) true none = pure (none, close fd ∷ [])
    made (some fd) true (some at) = create_mapping at buffer_size >> pure (some fd, [])

-- `handle` is what `malloc` returns.
pub allocator_attach : (handle memory : ℕ) → Option Handle
allocator_attach handle memory =
    if handle == null
    then none
    else some (record { at = handle; allocator = record { header = memory } })

pub allocator_destroy : Handle → List Release
allocator_destroy h = free h.at ∷ []

-- `free` of a pointer that is not `NULL`.
abbrev pub freed : ℕ → List Release
freed p = if p == null then [] else free p ∷ []

-- `event_manager_shm_destroy`
pub event_manager_shm_destroy : ℕ → List Release
event_manager_shm_destroy manager = freed manager

-- What `transport_shm_destroy` does with one of the arenas.
pub destroy_arena : (allocator : Option Handle) → (shm_fd : ℕ) → Cmd (List Release)
destroy_arena none shm_fd = pure []
destroy_arena (some h) shm_fd = do
  total_size ← load (total_size_of h.allocator)
  pure (
      munmap (h.allocator.header - arena_header_size) (add_size total_size arena_header_size)
      ∷ close shm_fd
      ∷ allocator_destroy h)

pub transport_shm_destroy : Transport → Cmd (List Release)
transport_shm_destroy t = do
  read ← destroy_arena t.read_arena.allocator t.read_arena.shm_fd
  write ← destroy_arena t.write_arena.allocator t.write_arena.shm_fd
  pure (
      freed t.name
      ++ (read ++ (write ++ (event_manager_shm_destroy t.event_manager ++ (free t.at ∷ [])))))

-- What the calls of `transport_shm_init` return. `memory` is the new structure with whatever was
-- there, and the sizes are those that `fstat` tells.
pub record Answers : Type 0 where
  pub memory : Option Transport
  pub name : ℕ
  pub event_manager : ℕ
  pub read_map : Option ℕ
  pub read_handle : ℕ
  pub write_size : Option ℕ
  pub write_map : Option ℕ
  pub write_handle : ℕ

module _ (a : Answers) (read_fd write_fd max_message_size : ℕ) where
  abbrev Result : Type 0
  Result = Option Transport × List Release

  failed : Transport → Cmd (Option Transport × List Release)
  failed t = transport_shm_destroy t >>= λ released. pure (none, released)

  -- `made` is what `allocator_create` returns.
  write_arena_made : ℕ → Transport → Option Allocator → Cmd (Option Transport × List Release)
  write_arena_made map t none = failed t
  write_arena_made map t (some allocator) = pure (
    some (record t {
      write_arena = record {
        header = map;
        allocator = some (record { at = a.write_handle; allocator = allocator });
        shm_fd = write_fd;
      };
    }),
    [],
  )

  write_mapped : (mapping_size : ℕ) → Transport → Option ℕ → Cmd (Option Transport × List Release)
  write_mapped mapping_size t none = failed t
  write_mapped mapping_size t (some map) =
      create_write_allocator (not (a.write_handle == null)) map mapping_size max_message_size
      >>= write_arena_made map t

  pub init_writing : Transport → Cmd (Option Transport × List Release)
  init_writing t =
      let mapping_size = transport_shm_get_mapping_size a.write_size in
      if ltb mapping_size max_message_size
      then failed t
      else write_mapped mapping_size t a.write_map

  read_attached : ℕ → Transport → Option Handle → Cmd (Option Transport × List Release)
  read_attached map t none = failed t
  read_attached map t (some handle) = init_writing (record t {
    read_arena = record { header = map; allocator = some handle; shm_fd = read_fd };
    max_message_size = max_message_size;
  })

  read_mapped : Transport → Option ℕ → Cmd (Option Transport × List Release)
  read_mapped t none = failed t
  read_mapped t (some map) =
      read_attached map t (allocator_attach a.read_handle (map + arena_header_size))

  -- From the event manager on.
  init_memory : Transport → Cmd (Option Transport × List Release)
  init_memory memory =
      let named = record memory { name = a.name } in
      if a.event_manager == null
      then failed named
      else read_mapped (record named { event_manager = a.event_manager }) a.read_map

  -- `none` is `NULL`; with what was given back before the return.
  pub transport_shm_init : Cmd (Option Transport × List Release)
  transport_shm_init = elim a.memory [ none ↦ pure (none, []) | some memory ↦ init_memory memory ]
