-- ===== src/Shm/Append.antt =====
-- `transport_shm_message_send` puts a message behind the others of its arena
-- (src/shmem/transport_shm.c).
use libkrossbar.Prelude.{
  ℕ, ◌+◌, ◌-◌, ◌%◌, ◌^◌, ◌≤◌, ◌<◌, ◌≡◌, ◌≢◌, refl, sym, ap, ◌∙◌, true, false, List, [], ◌∷◌, ◌++◌,
  arith, length, length-append,
}
use libkrossbar.Memory.{Memory, write, ok, null_offset}
use libkrossbar.Allocator.Fields
use libkrossbar.Allocator.Fields.{Allocator, max_message_size_of}
use libkrossbar.Allocator.FreeList.{has}
use libkrossbar.Allocator.Layout.{Block}
use libkrossbar.Allocator.Validity.{IsValid}
use libkrossbar.Allocator.Payload.{payload_write-IsValid}
use libkrossbar.Allocator.Requests.{IsConfigured-same}
use libkrossbar.Shm.{
  Arena, size_of, num_messages_of, futex_of, first_message_of, last_message_of, next_message_of,
  transport_message_offset, arena_lock, arena_unlock, append_message, transport_message_from_offset,
}
use libkrossbar.Shm.Queue.{
  arena_write-IsValid, IsQueued, last_of, last_of-has, IsHeld, AreHeld-has, AreHeld-append,
  Distinct-append, IsArena, IsQueued-append, held-bounds, message_from_offset-held,
  message_offset-held,
}

-- The memory after the lock is taken and the message is linked from the list `ps`.
pub linked : Arena → Memory → List ℕ → ℕ → Memory
linked ar m [] p = write (write m (futex_of ar) 1) (first_message_of ar) (p - ar.header)
linked ar m (q ∷ ps) p =
    write (write m (futex_of ar) 1) (next_message_of (last_of (q ∷ ps))) (p - ar.header)

pub appended : Arena → Memory → List ℕ → ℕ → Memory
appended ar m ps p =
    write (write (write (linked ar m ps p) (last_message_of ar) (p - ar.header)) (futex_of ar) 0)
      (num_messages_of ar) ((m (num_messages_of ar) + 1) % 2 ^ 32)

module _ (ar : Arena) (m : Memory) (p q : ℕ) (ps : List ℕ) where
  appended_links :
      ar.header + 96 ≤ last_of (q ∷ ps)
      → (appended ar m (q ∷ ps) p (first_message_of ar) ≡ m (first_message_of ar))
        × (appended ar m (q ∷ ps) p (last_of (q ∷ ps) + 8) ≡ p - ar.header)
  unfolding appended linked write
  appended_links lo = (ground arith, ground arith)

module _ (ar : Arena) (e : ℕ) (m : Memory) (bs : List Block) (fs : List ℕ) (p : ℕ)
    (h : IsHeld ar bs p) (end : m (p + 8) ≡ null_offset) where
  last-IsHeld :
      (q : ℕ) (ps : List ℕ) → IsArena ar e m bs fs (q ∷ ps) → IsHeld ar bs (last_of (q ∷ ps))
  last-IsHeld q ps v = AreHeld-has ar bs (last_of (q ∷ ps)) (q ∷ ps) v.held (last_of-has q ps)

  offset : (ps : List ℕ) → IsArena ar e m bs fs ps → transport_message_offset ar p ≡ p - ar.header
  offset ps v = message_offset-held ar e m bs fs ps v p h

  append_message_lem :
      (ps : List ℕ) → IsArena ar e m bs fs ps → append_message ar p m ≡ ok tt (appended ar m ps p)
  unfolding append_message appended linked arena_lock arena_unlock write
  append_message_lem [] v = rw (offset [] v) (ground (arith, v.unlocked, last))
    where
      last : m (last_message_of ar) ≡ null_offset
      last = v.last ∙ unfold transport_message_offset in refl
  append_message_lem (q ∷ ps) v =
      rw (offset (q ∷ ps) v) (ground (arith, v.unlocked, last, bounds, found))
    where
      bounds : (ar.header + 96 ≤ last_of (q ∷ ps)) × (last_of (q ∷ ps) + 24 < e)
      bounds = held-bounds ar e m bs fs (q ∷ ps) v (last_of (q ∷ ps)) (last-IsHeld q ps v)

      last : m (last_message_of ar) ≡ last_of (q ∷ ps) - ar.header
      last = v.last ∙ message_offset-held ar e m bs fs (q ∷ ps) v _ (last-IsHeld q ps v)

      found :
          transport_message_from_offset ar (last_of (q ∷ ps) - ar.header) (write m (futex_of ar) 1)
          ≡ ok (last_of (q ∷ ps)) (write m (futex_of ar) 1)
      found =
          message_from_offset-held ar e m bs fs (q ∷ ps) v (write m (futex_of ar) 1)
            (last_of (q ∷ ps)) (ground arith) (last-IsHeld q ps v)

  -- Where nothing is written.
  pub appended_ne :
      (ps : List ℕ) (y : ℕ) → ar.header + 32 ≤ y → y ≢ last_of ps + 8 → appended ar m ps p y ≡ m y
  unfolding appended linked write
  appended_ne [] y lo ne = ground arith
  appended_ne (q ∷ ps) y lo ne = ground (arith, ne)

  appended_region :
      (ps : List ℕ)
      → IsArena ar e m bs fs ps
      → (y : ℕ) → ar.header + 32 ≤ y
      → y < ar.header + 72
      → appended ar m ps p y ≡ m y
  appended_region [] v y lo hi = appended_ne [] y lo (omega arith)
  appended_region (q ∷ ps) v y lo hi =
      appended_ne (q ∷ ps) y lo
        (omega (arith, held-bounds ar e m bs fs (q ∷ ps) v (last_of (q ∷ ps)) (last-IsHeld q ps v)))

  appended_words :
      (ps : List ℕ)
      → IsArena ar e m bs fs ps
      → (appended ar m ps p (size_of ar) ≡ m (size_of ar))
        × (appended ar m ps p (futex_of ar) ≡ 0)
        × (appended ar m ps p (num_messages_of ar) ≡ (m (num_messages_of ar) + 1) % 2 ^ 32)
        × (appended ar m ps p (last_message_of ar) ≡ p - ar.header)
  unfolding appended linked write
  appended_words [] v = (ground arith, ground arith, ground arith, ground arith)
  appended_words (q ∷ ps) v =
      let b = held-bounds ar e m bs fs (q ∷ ps) v (last_of (q ∷ ps)) (last-IsHeld q ps v) in
      (ground (arith, b), ground (arith, b), ground (arith, b), ground (arith, b))

  linked-IsValid :
      (ps : List ℕ) → IsArena ar e m bs fs ps → IsValid ar.allocator (linked ar m ps p) e bs fs
  unfolding linked
  linked-IsValid [] v =
      arena_write-IsValid ar e bs fs v.placed _ (first_message_of ar) _ (omega arith)
        (arena_write-IsValid ar e bs fs v.placed m (futex_of ar) 1 (omega arith) v.valid)
  linked-IsValid (q ∷ ps) v =
      payload_write-IsValid ar.allocator _ e (next_message_of (last_of (q ∷ ps))) _ bs fs
        (arena_write-IsValid ar e bs fs v.placed m (futex_of ar) 1 (omega arith) v.valid)
        (last-IsHeld q ps v).1

  appended-IsValid :
      (ps : List ℕ) → IsArena ar e m bs fs ps → IsValid ar.allocator (appended ar m ps p) e bs fs
  unfolding appended
  appended-IsValid ps v =
      arena_write-IsValid ar e bs fs v.placed _ (num_messages_of ar) _ (omega arith) (
        arena_write-IsValid ar e bs fs v.placed _ (futex_of ar) 0 (omega arith) (
          arena_write-IsValid ar e bs fs v.placed _ (last_message_of ar) _ (omega arith)
            (linked-IsValid ps v)))

  last_of-append : (ps : List ℕ) → last_of (ps ++ (p ∷ [])) ≡ p
  last_of-append [] = refl
  last_of-append (q ∷ []) = refl
  last_of-append (q ∷ r ∷ ps) = last_of-append (r ∷ ps)

  appended-IsQueued :
      (ps : List ℕ)
      → IsArena ar e m bs fs ps
      → has p ps ≡ false
      → let m' = appended ar m ps p in IsQueued ar m' (m' (first_message_of ar)) (ps ++ (p ∷ []))
  appended-IsQueued [] v n = (head, rest)
    where
      head : appended ar m [] p (first_message_of ar) ≡ p - ar.header
      head = unfold appended linked write in ground arith

      rest : appended ar m [] p (p + 8) ≡ null_offset
      rest =
          appended_ne [] (p + 8) (omega (arith, held-bounds ar e m bs fs [] v p h))
            (omega (arith, held-bounds ar e m bs fs [] v p h))
          ∙ end
  appended-IsQueued (q ∷ ps) v n =
      IsQueued-append ar m m' (m' (first_message_of ar)) q ps p (rw head v.queued) v.distinct link
        rest
        λ r i ne. appended_ne (q ∷ ps) (r + 8) (omega (arith, low r i)) (λ s. ne (omega (arith, s)))
    where
      m' : Memory
      m' = appended ar m (q ∷ ps) p

      low : (r : ℕ) → has r (q ∷ ps) ≡ true → (ar.header + 96 ≤ r) × (r + 24 < e)
      low r i = held-bounds ar e m bs fs (q ∷ ps) v r (AreHeld-has ar bs r (q ∷ ps) v.held i)

      head : m' (first_message_of ar) ≡ m (first_message_of ar)
      head = (appended_links ar m p q ps (low _ (last_of-has q ps)).0).0

      link : m' (last_of (q ∷ ps) + 8) ≡ p - ar.header
      link = (appended_links ar m p q ps (low _ (last_of-has q ps)).0).1

      other : p ≢ last_of (q ∷ ps)
      other same = absurd (ground (arith, last_of-has q ps, same))

      rest : m' (p + 8) ≡ null_offset
      rest =
          appended_ne (q ∷ ps) (p + 8) (omega (arith, held-bounds ar e m bs fs (q ∷ ps) v p h))
            (λ s. other (omega (arith, s)))
          ∙ end

  -- A message whose header lies in an allocated block, that is not in the list and whose
  -- `next_message_offset` is `NULL_OFFSET`, comes behind all others, as long as the count of messages
  -- fits 32 bits.
  pub append-IsArena :
      (ps : List ℕ)
      → IsArena ar e m bs fs ps
      → has p ps ≡ false
      → length ps + 1 < 2 ^ 32
      → (append_message ar p m ≡ ok tt (appended ar m ps p))
        × IsArena ar e (appended ar m ps p) bs fs (ps ++ (p ∷ []))
  append-IsArena ps v n b = (
    append_message_lem ps v,
    record {
      placed = v.placed;
      region = rw (appended_words ps v).0 v.region;
      valid = appended-IsValid ps v;
      configured =
          IsConfigured-same ar.allocator m (appended ar m ps p)
            (appended_region ps v (max_message_size_of ar.allocator) (omega (arith, v.placed))
              (omega (arith, v.placed)))
            v.configured;
      released =
          appended_region ps v (Fields.futex_of ar.allocator) (omega (arith, v.placed))
            (omega (arith, v.placed))
          ∙ v.released;
      unlocked = (appended_words ps v).1;
      counted = (appended_words ps v).2 ∙ omega (arith, v.counted, b, length-append ps (p ∷ []));
      bounded = omega (arith, b, length-append ps (p ∷ []));
      queued = appended-IsQueued ps v n;
      last =
          (appended_words ps v).3
          ∙ sym (offset ps v)
          ∙ ap (transport_message_offset ar) (sym (last_of-append ps));
      held = AreHeld-append ar bs ps p v.held h;
      distinct = Distinct-append ps p v.distinct n;
    },
  )
