-- ===== src/Shm/Receive.antt =====
-- `transport_shm_message_receive` takes the oldest message (src/shmem/transport_shm.c).
use libkrossbar.Prelude.{
  ℕ, suc, false, ◌+◌, ◌-◌, ◌%◌, ◌^◌, ◌≤◌, ◌≡◌, refl, ◌∙◌, none, some, false, List, [], ◌∷◌, arith,
  length, ◌==◌,
}
use libkrossbar.Memory.{Memory, write, ok, null, null_offset}
use libkrossbar.Allocator.Fields
use libkrossbar.Allocator.Fields.{max_message_size_of}
use libkrossbar.Allocator.Layout.{Block}
use libkrossbar.Allocator.Validity.{IsValid}
use libkrossbar.Allocator.Requests.{IsConfigured-same}
use libkrossbar.Shm.{
  Arena, size_of, num_messages_of, futex_of, first_message_of, last_message_of, next_message_of,
  transport_message_offset, arena_lock, arena_unlock, take_message, transport_shm_message_receive,
}
use libkrossbar.Shm.Queue.{
  arena_write-IsValid, IsQueued-frame, last_of, AreHeld-has, IsArena, held-bounds,
  message_from_offset-held,
}

-- The memory after the lock is taken and the first message, in front of `ps`, has left the list.
pub unlinked_first : Arena → Memory → (q : ℕ) → List ℕ → Memory
unlinked_first ar m q [] =
    write (write (write m (futex_of ar) 1) (first_message_of ar) (m (next_message_of q)))
      (last_message_of ar) null_offset
unlinked_first ar m q (r ∷ ps) =
    write (write m (futex_of ar) 1) (first_message_of ar) (m (next_message_of q))

pub received : Arena → Memory → (q : ℕ) → List ℕ → Memory
received ar m q ps =
    write (write (unlinked_first ar m q ps) (futex_of ar) 0) (num_messages_of ar)
      ((m (num_messages_of ar) + (2 ^ 32 - 1)) % 2 ^ 32)

module _ (ar : Arena) (e : ℕ) (m : Memory) (bs : List Block) (fs : List ℕ) where
  -- When there is no message, nothing happens.
  receive-empty : IsArena ar e m bs fs [] → transport_shm_message_receive ar m ≡ ok none m
  unfolding transport_shm_message_receive
  receive-empty v = rw v.counted refl

  module _ (q : ℕ) where
    take_message_lem :
        (ps : List ℕ)
        → IsArena ar e m bs fs (q ∷ ps)
        → take_message ar q m ≡ ok (some q) (received ar m q ps)
    unfolding take_message received unlinked_first arena_lock arena_unlock write
    take_message_lem [] v =
        ground (arith, v.unlocked, v.queued, held-bounds ar e m bs fs (q ∷ []) v q v.held.0)
    take_message_lem (r ∷ ps) v = ground (
      arith,
      v.unlocked,
      v.queued,
      v.valid.fits,
      held-bounds ar e m bs fs (q ∷ r ∷ ps) v q v.held.0,
      held-bounds ar e m bs fs (q ∷ r ∷ ps) v r v.held.1.0,
    )

    receive-take :
        (ps : List ℕ)
        → IsArena ar e m bs fs (q ∷ ps)
        → transport_shm_message_receive ar m ≡ take_message ar q m
    unfolding transport_shm_message_receive
    receive-take ps v =
        rw
          (
            v.counted,
            some_message,
            v.queued.0,
            message_from_offset-held ar e m bs fs (q ∷ ps) v m q refl v.held.0,
            nonnull,
          )
          refl
      where
        some_message : (suc (length ps) == 0) ≡ false
        some_message = ground arith

        nonnull : (q == null) ≡ false
        nonnull = ground (arith, held-bounds ar e m bs fs (q ∷ ps) v q v.held.0)

    received_ne : (ps : List ℕ) (y : ℕ) → ar.header + 32 ≤ y → received ar m q ps y ≡ m y
    unfolding received unlinked_first write
    received_ne [] y lo = ground arith
    received_ne (r ∷ ps) y lo = ground arith

    received_words :
        (ps : List ℕ)
        → IsArena ar e m bs fs (q ∷ ps)
        → (received ar m q ps (size_of ar) ≡ m (size_of ar))
          × (received ar m q ps (futex_of ar) ≡ 0)
          × (received ar m q ps (num_messages_of ar)
              ≡ (m (num_messages_of ar) + (2 ^ 32 - 1)) % 2 ^ 32)
          × (received ar m q ps (first_message_of ar) ≡ m (next_message_of q))
          × (received ar m q ps (last_message_of ar) ≡ transport_message_offset ar (last_of ps))
    unfolding received unlinked_first write
    received_words [] v = (
      ground arith,
      ground arith,
      ground arith,
      ground arith,
      (unfold transport_message_offset in ground arith),
    )
    received_words (r ∷ ps) v =
        (ground arith, ground arith, ground arith, ground arith, ground (arith, v.last))

    received-IsValid :
        (ps : List ℕ)
        → IsArena ar e m bs fs (q ∷ ps)
        → IsValid ar.allocator (received ar m q ps) e bs fs
    unfolding received unlinked_first
    received-IsValid [] v =
        arena_write-IsValid ar e bs fs v.placed _ (num_messages_of ar) _ (omega arith) (
          arena_write-IsValid ar e bs fs v.placed _ (futex_of ar) 0 (omega arith) (
            arena_write-IsValid ar e bs fs v.placed _ (last_message_of ar) _ (omega arith) (
              arena_write-IsValid ar e bs fs v.placed _ (first_message_of ar) _ (omega arith)
                (arena_write-IsValid ar e bs fs v.placed m (futex_of ar) 1 (omega arith) v.valid))))
    received-IsValid (r ∷ ps) v =
        arena_write-IsValid ar e bs fs v.placed _ (num_messages_of ar) _ (omega arith) (
          arena_write-IsValid ar e bs fs v.placed _ (futex_of ar) 0 (omega arith) (
            arena_write-IsValid ar e bs fs v.placed _ (first_message_of ar) _ (omega arith)
              (arena_write-IsValid ar e bs fs v.placed m (futex_of ar) 1 (omega arith) v.valid)))

    -- The oldest message is returned, and the others stay in their order.
    received-IsArena :
        (ps : List ℕ) → IsArena ar e m bs fs (q ∷ ps) → IsArena ar e (received ar m q ps) bs fs ps
    received-IsArena ps v = record {
      placed = v.placed;
      region = rw (received_words ps v).0 v.region;
      valid = received-IsValid ps v;
      configured =
          IsConfigured-same ar.allocator m (received ar m q ps)
            (received_ne ps (max_message_size_of ar.allocator) (omega (arith, v.placed)))
            v.configured;
      released =
          received_ne ps (Fields.futex_of ar.allocator) (omega (arith, v.placed)) ∙ v.released;
      unlocked = (received_words ps v).1;
      counted = (received_words ps v).2 ∙ omega (arith, v.counted, v.bounded);
      bounded = omega (arith, v.bounded);
      queued = rw (received_words ps v).3 (
          IsQueued-frame ar m (received ar m q ps) (m (q + 8)) ps v.queued.1 λ r i.
            received_ne ps (r + 8) (
              omega (
                arith,
                held-bounds ar e m bs fs (q ∷ ps) v r (AreHeld-has ar bs r ps v.held.1 i),
              )));
      last = (received_words ps v).4;
      held = v.held.1;
      distinct = v.distinct.1;
    }

-- What a receive comes to, from the messages in the arena.
abbrev pub IsReceived : Arena → ℕ → Memory → List Block → List ℕ → List ℕ → Type 0
IsReceived ar e m bs fs [] = transport_shm_message_receive ar m ≡ ok none m
IsReceived ar e m bs fs (q ∷ ps) =
    (m' : Memory) × (transport_shm_message_receive ar m ≡ ok (some q) m')
    × IsArena ar e m' bs fs ps
    × ((y : ℕ) → ar.header + 32 ≤ y → m' y ≡ m y)

-- On an arena between two calls: `transport_shm_message_receive` returns `NULL` and changes nothing
-- when there is no message. Otherwise it returns the oldest one and leaves the others, in their
-- order; the region behind the arena's header, all messages with it, is as it was.
pub receive-IsReceived :
    (ar : Arena) (e : ℕ) (m : Memory) (bs : List Block) (fs ps : List ℕ)
    → IsArena ar e m bs fs ps
    → IsReceived ar e m bs fs ps
receive-IsReceived ar e m bs fs [] v = receive-empty ar e m bs fs v
receive-IsReceived ar e m bs fs (q ∷ ps) v = (
  received ar m q ps,
  receive-take ar e m bs fs q ps v ∙ take_message_lem ar e m bs fs q ps v,
  received-IsArena ar e m bs fs q ps v,
  received_ne ar e m bs fs q ps,
)
