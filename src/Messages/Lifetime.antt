-- ===== src/Messages/Lifetime.antt =====
-- A message that was received and is destroyed leaves nothing behind (src/message.c,
-- src/uds/message_uds.c, src/shmem/message_shm.c).
use libkrossbar.Prelude.{ℕ, ◌<◌, ◌≡◌, ◌≢◌, refl, false, some, ◌∷◌, ◌==◌, arith, nonzero}
use libkrossbar.Memory.{Memory, null}
use libkrossbar.Uds.{Transport, transport_uds_message_release}
use libkrossbar.Uds.SocketApi.{Socket}
use libkrossbar.Messages.{
  Objects, without, release, obtain, Message, message_init, message_made, message_destroy, UdsState,
  on_uds, message_uds_clean, message_uds_init,
}

without-first : (p : ℕ) (os : Objects) → without p (p ∷ os) ≡ os
without-first p os = ground arith

release-obtain : (p : ℕ) (os : Objects) → release p (obtain p os) ≡ os
unfolding release obtain
release-obtain p os = ground (arith, without-first p os)

-- A message of a positive size, in a structure that is there.
module _ {S : Type 0} (at bson size : ℕ) (clean : ℕ → S → S) (os : Objects) (present : at ≢ null)
    (some_bytes : 0 < size) where
  made :
      message_made at bson clean (message_init bson size (obtain at os))
      ≡ some (record { at = at; document = bson; destroy = some clean }, obtain bson (obtain at os))
  unfolding message_made message_init
  made =
      let empty : (size == 0) ≡ false = ground (arith, some_bytes) in
      rw (empty, nonzero at present) refl

-- Over a socket, when `malloc` gives the structure and the message is not empty: the message is made, and destroying it gives
-- back the message's part of the transport, and leaves the objects of the process as they were before
-- the message was made, with a `bson_t` from libbson or without.
message_uds-destroy :
    (s : Socket) (at bson size : ℕ) (os : Objects) (t : Transport s.Conn)
    → at ≢ null
    → 0 < size
    → (message : Message (UdsState s)) × (os' : Objects) × (message_uds_init s at bson size os
        ≡ some (message, os'))
      × (message_destroy (on_uds s) (some message) (t, os')
          ≡ (transport_uds_message_release s t, os))
unfolding message_uds_init message_uds_clean message_destroy
message_uds-destroy s at bson size os t present some_bytes = (
  _,
  obtain bson (obtain at os),
  made at bson size (message_uds_clean s) os present some_bytes,
  rw (release-obtain bson (obtain at os), release-obtain at os) refl,
)
