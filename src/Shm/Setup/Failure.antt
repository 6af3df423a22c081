-- ===== src/Shm/Setup/Failure.antt =====
-- What is given back when the setup of a transport over shared memory fails
-- (src/shmem/transport_shm.c): what the structure had when `malloc` gave it is among that.
use libkrossbar.Prelude.{
  ℕ, ◌+◌, ◌-◌, ◌<◌, ◌≡◌, ◌≢◌, ◌⊎◌, inl, inr, refl, ap, ◌∙◌, Option, none, some, List, [], ◌∷◌, ◌++◌,
  arith, ltb, ◌==◌, nonzero, Bool-cases, append_assoc,
}
use libkrossbar.Memory.{Memory, Cmd, ok, null, add_size}
use libkrossbar.Allocator.Fields.{total_size_of}
use libkrossbar.Shm.{transport_shm_get_mapping_size}
use libkrossbar.Shm.Setup.{
  Release, munmap, close, free, freed, Handle, SharedArena, Transport, allocator_attach,
  allocator_destroy, event_manager_shm_destroy, destroy_arena, transport_shm_destroy, Answers,
  failed, write_mapped, init_writing, read_attached, read_mapped, init_memory, transport_shm_init,
}

-- An arena that was set up: its mapping by the size that stands in it, its file and its handle.
abbrev pub arena_released : (map total_size fd handle : ℕ) → List Release
arena_released map total_size fd handle =
    munmap map (add_size total_size 32) ∷ close fd ∷ free handle ∷ []

attach_lem :
    (handle memory : ℕ)
    → handle ≢ null
    → allocator_attach handle memory
      ≡ some (record { at = handle; allocator = record { header = memory } })
unfolding allocator_attach
attach_lem handle memory h = rw (nonzero handle h) refl

module _ (a : Answers) (read_fd write_fd max_message_size : ℕ) (m : Memory)
    (manager_ok : a.event_manager ≢ null) (name_ok : a.name ≢ null) where
  -- What stands in the structure when the read arena is set up.
  unfoldable pub with_read_arena : Transport → ℕ → Transport
  with_read_arena memory map = record memory {
    name = a.name;
    event_manager = a.event_manager;
    read_arena = record {
      header = map;
      allocator = some (record { at = a.read_handle; allocator = record { header = map + 32 } });
      shm_fd = read_fd;
    };
    max_message_size = max_message_size;
  }

  pub reaches_write :
      (memory : Transport) (map : ℕ)
      → a.memory ≡ some memory
      → a.read_map ≡ some map
      → a.read_handle ≢ null
      → transport_shm_init a read_fd write_fd max_message_size
        ≡ init_writing a read_fd write_fd max_message_size (with_read_arena memory map)
  unfolding transport_shm_init init_memory read_mapped read_attached with_read_arena
  reaches_write memory map e f h =
      rw (e, nonzero a.event_manager manager_ok, f, attach_lem a.read_handle (map + 32) h) refl

-- What `transport_shm_destroy` gives back of an arena with a handle: the mapping that its allocator
-- says, by the size that stands there, the file and the handle.
abbrev pub handle_released : Memory → Handle → (shm_fd : ℕ) → List Release
handle_released m h shm_fd =
    munmap (h.allocator.header - 32) (add_size (m (total_size_of h.allocator)) 32)
    ∷ close shm_fd
    ∷ free h.at
    ∷ []

abbrev arena_given : Memory → SharedArena → List Release
arena_given m arena = elim arena.allocator [ none ↦ [] | some h ↦ handle_released m h arena.shm_fd ]

-- Why a setup fails, before the allocator of the write arena is made.
abbrev pub Fails : Answers → (max_message_size : ℕ) → Type 0
Fails a max_message_size =
    (a.event_manager ≡ null)
    ⊎ ((a.read_map ≡ none)
        ⊎ ((a.read_handle ≡ null)
            ⊎ ((transport_shm_get_mapping_size a.write_size < max_message_size)
                ⊎ (a.write_map ≡ none))))

destroy_arena_lem :
    (m : Memory) (arena : SharedArena)
    → destroy_arena arena.allocator arena.shm_fd m ≡ ok (arena_given m arena) m
unfolding destroy_arena allocator_destroy
destroy_arena_lem m arena =
    elim arena.allocator
      as (λ o.
        destroy_arena o arena.shm_fd m
        ≡ ok (elim o [ none ↦ [] | some h ↦ handle_released m h arena.shm_fd ]) m) [
          | none ↦ refl
          | some h ↦ refl
        ]

module _ (a : Answers) (read_fd write_fd max_message_size : ℕ) (kept : SharedArena) where
  -- The code `c` fails with a transport whose write arena is the one that was there.
  abbrev FailsWith : Cmd (Option Transport × List Release) → Type 0
  FailsWith c =
      (t : Transport) × (c ≡ failed a read_fd write_fd max_message_size t) × (t.write_arena ≡ kept)

  init_writing-FailsWith :
      (t : Transport)
      → t.write_arena ≡ kept
      → (transport_shm_get_mapping_size a.write_size < max_message_size) ⊎ (a.write_map ≡ none)
      → FailsWith (init_writing a read_fd write_fd max_message_size t)
  unfolding init_writing write_mapped
  init_writing-FailsWith t e h =
      elim (Bool-cases (ltb (transport_shm_get_mapping_size a.write_size) max_message_size)) [
        | inl small ↦ (t, rw small refl, e)
        | inr large ↦ elim h [
          | inl less ↦ absurd (ground (arith, large, less))
          | inr unmapped ↦ (t, rw (large, unmapped) refl, e)
        ]
      ]

  read_mapped-FailsWith :
      (t : Transport) (map : Option ℕ)
      → t.write_arena ≡ kept
      → (map ≡ none)
        ⊎ ((a.read_handle ≡ null)
            ⊎ ((transport_shm_get_mapping_size a.write_size < max_message_size)
                ⊎ (a.write_map ≡ none)))
      → FailsWith (read_mapped a read_fd write_fd max_message_size t map)
  unfolding read_mapped read_attached allocator_attach
  read_mapped-FailsWith t none e h = (t, refl, e)
  read_mapped-FailsWith t (some map) e (inl none_mapped) = absurd (cc)
  read_mapped-FailsWith t (some map) e (inr h) = elim (Bool-cases (a.read_handle == null)) [
    | inl missing ↦ rw missing (t, refl, e)
    | inr present ↦ rw present (elim h [
      | inl null_handle ↦ absurd (ground (arith, present, null_handle))
      | inr later ↦ init_writing-FailsWith _ e later
    ])
  ]

  init_memory-FailsWith :
      (memory : Transport)
      → memory.write_arena ≡ kept
      → Fails a max_message_size
      → FailsWith (init_memory a read_fd write_fd max_message_size memory)
  unfolding init_memory
  init_memory-FailsWith memory e h = elim (Bool-cases (a.event_manager == null)) [
    | inl missing ↦ rw missing (_, refl, e)
    | inr present ↦ rw present (elim h [
      | inl null_manager ↦ absurd (ground (arith, present, null_manager))
      | inr later ↦ read_mapped-FailsWith _ a.read_map e later
    ])
  ]

failed_lem :
    (a : Answers) (read_fd write_fd max_message_size : ℕ) (m : Memory) (t : Transport)
    → failed a read_fd write_fd max_message_size t m
      ≡ ok
          (
            none,
            (freed t.name ++ arena_given m t.read_arena)
                ++ (arena_given m t.write_arena
                    ++ (event_manager_shm_destroy t.event_manager ++ (free t.at ∷ []))),
          )
          m
unfolding failed transport_shm_destroy
failed_lem a read_fd write_fd max_message_size m t =
    rw
      (
        destroy_arena_lem m t.read_arena,
        destroy_arena_lem m t.write_arena,
        append_assoc (freed t.name) (arena_given m t.read_arena),
      )
      refl

init_made :
    (a : Answers) (read_fd write_fd max_message_size : ℕ) (memory : Transport)
    → a.memory ≡ some memory
    → transport_shm_init a read_fd write_fd max_message_size
      ≡ init_memory a read_fd write_fd max_message_size memory
unfolding transport_shm_init
init_made a read_fd write_fd max_message_size memory given = rw given refl

-- When `malloc` gives the structure and `transport_shm_init` then fails, because the event manager,
-- the read mapping or its handle, a write mapping of the size of a message or that mapping's
-- address is missing, and what `malloc` left where the write arena's allocator belongs is read as a
-- handle: the mapping that this handle names is unmapped, what was left in `shm_fd` is closed and
-- the handle is freed, among whatever else is given back.
pub init_failed-unset :
    (a : Answers) (read_fd write_fd max_message_size : ℕ) (m : Memory) (memory : Transport)
    (left : Handle)
    → a.memory ≡ some memory
    → memory.write_arena.allocator ≡ some left
    → Fails a max_message_size
    → (before after : List Release) × (transport_shm_init a read_fd write_fd max_message_size m
        ≡ ok (none, before ++ (handle_released m left memory.write_arena.shm_fd ++ after)) m)
init_failed-unset a read_fd write_fd max_message_size m memory left given handle h =
    let (t, run, e) =
      init_memory-FailsWith a read_fd write_fd max_message_size memory.write_arena memory refl h in
    let is : arena_given m t.write_arena ≡ handle_released m left memory.write_arena.shm_fd =
      ap (arena_given m) e ∙ rw handle refl in
    let after = event_manager_shm_destroy t.event_manager ++ (free t.at ∷ []) in
    (
      freed t.name ++ arena_given m t.read_arena,
      after,
      ap (λ c. c m) (init_made a read_fd write_fd max_message_size memory given ∙ run)
          ∙ failed_lem a read_fd write_fd max_message_size m t
          ∙ ap (λ l. ok (none, (freed t.name ++ arena_given m t.read_arena) ++ (l ++ after)) m) is,
    )
