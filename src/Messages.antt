-- ===== src/Messages.antt =====
-- Received messages (src/message.c) of both transports (src/uds/message_uds.c,
-- src/shmem/message_shm.c), from the call that makes one to the one that destroys it. A `bson_t` that
-- libbson gives and a structure that `malloc` gives are objects of the process: pointers, 0 for `NULL`.
pub mod Lifetime
mod Tests
use libkrossbar.Prelude.{
  ℕ, Bool, true, false, Option, none, some, List, [], ◌∷◌, ◌==◌, if◌then◌else◌,
}
use libkrossbar.Memory.{Memory, Run, ok, and_then, null, load}
use libkrossbar.Uds.{Transport, transport_uds_message_release}
use libkrossbar.Uds.SocketApi.{Socket}
use libkrossbar.Shm.{Arena, message_size_of, transport_shm_message_release}

-- The objects that are there.
abbrev pub Objects : Type 0
Objects = List ℕ

abbrev pub without : ℕ → Objects → Objects
without p [] = []
without p (q ∷ os) = let rest = without p os in if p == q then os else q ∷ rest

-- `free` and `bson_destroy`, which do nothing to `NULL`.
unfoldable pub release : ℕ → Objects → Objects
release p os = if p == null then os else without p os

unfoldable pub obtain : ℕ → Objects → Objects
obtain p os = if p == null then os else p ∷ os

-- `kb_message_t` over what a transport works on, `destroy` being `NULL` or a function of the message.
pub record Message (S : Type 0) : Type 0 where
  pub at : ℕ
  pub document : ℕ
  pub destroy : Option (ℕ → S → S)

-- `bson` is what `bson_new` answers; `none` is a failed assertion.
unfoldable pub message_init : (bson size : ℕ) → Objects → Option Objects
message_init bson size os = if size == 0 then none else some (obtain bson os)

-- The message that `malloc` gave at `at`, which is written to whatever it is: `none` for a write to
-- `NULL` and for a failed assertion.
unfoldable pub message_made :
    {S : Type 0}
    → (at bson : ℕ) → (clean : ℕ → S → S) → Option Objects
    → Option (Message S × Objects)
message_made at bson clean none = none
message_made at bson clean (some os) =
    if at == null
    then none
    else some (record { at = at; document = bson; destroy = some clean }, os)

-- `none` is a failed assertion.
pub message_get_document : {S : Type 0} → Message S → Option ℕ
message_get_document message = if message.document == null then none else some message.document

-- `on_objects` releases in the state.
unfoldable pub message_destroy :
    {S : Type 0} → (on_objects : (Objects → Objects) → S → S) → Option (Message S) → S → S
message_destroy on_objects none s = s
message_destroy on_objects (some message) s =
    let s' = on_objects (release message.document) s in
    elim message.destroy [ none ↦ s' | some destroy ↦ destroy message.at s' ]

module _ (s : Socket) where
  abbrev pub UdsState : Type 0
  UdsState = Transport s.Conn × Objects

  abbrev pub on_uds : (Objects → Objects) → UdsState → UdsState
  on_uds f (t, os) = (t, f os)

  unfoldable pub message_uds_clean : (message : ℕ) → UdsState → UdsState
  message_uds_clean message (t, os) = (transport_uds_message_release s t, release message os)

  unfoldable pub message_uds_init :
      (at bson : ℕ) → (size : ℕ) → Objects → Option (Message UdsState × Objects)
  message_uds_init at bson size os =
      message_made at bson message_uds_clean (message_init bson size (obtain at os))

-- The shared memory may abort, block or run out of fuel.
abbrev pub ShmState : Type 0
ShmState = Run Objects

abbrev pub on_shm : (Objects → Objects) → ShmState → ShmState
on_shm f r = and_then r (λ os m. ok (f os) m)

module _ (fuel : ℕ) (read_arena : Arena) where
  -- `header` is the field that `message_shm_init` sets.
  unfoldable pub message_shm_clean : (header message : ℕ) → ShmState → ShmState
  message_shm_clean header message r = and_then r (λ os m.
      and_then (transport_shm_message_release fuel read_arena header m)
        (λ done m'. ok (release message os) m'))

  unfoldable pub message_shm_init :
      (at bson : ℕ) → (header : ℕ) → Memory → Objects → Option (Message ShmState × Objects)
  message_shm_init at bson header m os =
      message_made at bson (message_shm_clean header)
        (message_init bson (m (message_size_of header)) (obtain at os))
