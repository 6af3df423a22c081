-- ===== src/Shm/Queue.antt =====
-- The list of messages of an arena as a queue (src/shmem/transport_shm.c): what its offsets lead
-- through, and where its messages lie.
use libkrossbar.Prelude.{
  ℕ, ◌+◌, ◌-◌, ◌%◌, ◌^◌, ◌≤◌, ◌<◌, ◌≡◌, ◌≢◌, refl, subst, true, false, ◌||◌, List, [], ◌∷◌, ◌++◌,
  arith, length, ◌==◌, Bool-cases, inl, inr,
}
use libkrossbar.Memory.{Memory, write, ok, null, null_offset}
use libkrossbar.Allocator.Fields
use libkrossbar.Allocator.Fields.{Allocator}
use libkrossbar.Allocator.Alloc.{header_write-IsValid}
use libkrossbar.Allocator.Requests.{IsConfigured}
use libkrossbar.Allocator.FreeList.{has}
use libkrossbar.Allocator.Unlink.{Distinct}
use libkrossbar.Allocator.Layout.{Block}
use libkrossbar.Allocator.Validity.{first_block, IsValid}
use libkrossbar.Allocator.Payload.{in_payload, payload-bounds}
use libkrossbar.Shm.{
  Arena, size_of, num_messages_of, futex_of, first_message_of, last_message_of, next_message_of,
  transport_message_offset, transport_message_from_offset,
}

-- From `offset` on, the `next_message_offset` fields lead through the messages `ps`.
abbrev pub IsQueued : Arena → Memory → ℕ → List ℕ → Type 0
IsQueued ar m offset [] = offset ≡ null_offset
IsQueued ar m offset (p ∷ ps) = (offset ≡ p - ar.header) × IsQueued ar m (m (next_message_of p)) ps

-- The last message, `null` for none.
abbrev pub last_of : List ℕ → ℕ
last_of [] = null
last_of (p ∷ []) = p
last_of (p ∷ q ∷ ps) = last_of (q ∷ ps)

-- The header of the message at `p` lies in the payload of an allocated block.
abbrev pub IsHeld : Arena → List Block → ℕ → Type 0
IsHeld ar bs p =
    (in_payload p (first_block ar.allocator) bs ≡ true)
    × (in_payload (p + 8) (first_block ar.allocator) bs ≡ true)
    × ((p - ar.header) % 8 ≡ 0)

abbrev pub AreHeld : Arena → List Block → List ℕ → Type 0
AreHeld ar bs [] = Unit
AreHeld ar bs (p ∷ ps) = IsHeld ar bs p × AreHeld ar bs ps

-- An arena between two calls, with the blocks `bs`, the free list `fs` and the messages `ps`, the
-- oldest first.
pub record IsArena (ar : Arena) (e : ℕ) (m : Memory) (bs : List Block) (fs : List ℕ) (ps : List ℕ)
    : Type 0 where
  pub placed : ar.allocator.header ≡ ar.header + 32
  pub region : ar.header + m (size_of ar) ≡ e
  pub valid : IsValid ar.allocator m e bs fs
  pub configured : IsConfigured ar.allocator m
  pub released : m (Fields.futex_of ar.allocator) ≡ 0
  pub unlocked : m (futex_of ar) ≡ 0
  pub counted : m (num_messages_of ar) ≡ length ps
  pub bounded : length ps < 2 ^ 32
  pub queued : IsQueued ar m (m (first_message_of ar)) ps
  pub last : m (last_message_of ar) ≡ transport_message_offset ar (last_of ps)
  pub held : AreHeld ar bs ps
  pub distinct : Distinct ps

-- A write to the header of the arena leaves its allocator alone.
pub arena_write-IsValid :
    (ar : Arena) (e : ℕ) (bs : List Block) (fs : List ℕ)
    → ar.allocator.header ≡ ar.header + 32
    → (m : Memory) (y w : ℕ) → y < ar.header + 32
    → IsValid ar.allocator m e bs fs
    → IsValid ar.allocator (write m y w) e bs fs
arena_write-IsValid ar e bs fs placed m y w lt v =
    header_write-IsValid ar.allocator m e y w bs fs v (omega (arith, placed))
      (omega (arith, placed)) (omega (arith, placed))

pub last_of-has : (p : ℕ) (ps : List ℕ) → has (last_of (p ∷ ps)) (p ∷ ps) ≡ true
last_of-has p [] = ground arith
last_of-has p (q ∷ ps) = ground (arith, last_of-has q ps)

pub AreHeld-has :
    (ar : Arena) (bs : List Block) (p : ℕ) (ps : List ℕ)
    → AreHeld ar bs ps
    → has p ps ≡ true
    → IsHeld ar bs p
AreHeld-has ar bs p [] h i = absurd (cc)
AreHeld-has ar bs p (q ∷ ps) h i = elim (Bool-cases (q == p)) [
  | inl same ↦ let e : q ≡ p = ground arith in subst (IsHeld ar bs) e h.0
  | inr other ↦ AreHeld-has ar bs p ps h.1 (ground arith)
]

pub AreHeld-append :
    (ar : Arena) (bs : List Block) (ps : List ℕ) (p : ℕ)
    → AreHeld ar bs ps
    → IsHeld ar bs p
    → AreHeld ar bs (ps ++ (p ∷ []))
AreHeld-append ar bs [] p h i = (i, tt)
AreHeld-append ar bs (q ∷ ps) p h i = (h.0, AreHeld-append ar bs ps p h.1 i)

pub has-append : (y p : ℕ) (ps : List ℕ) → has y (ps ++ (p ∷ [])) ≡ (has y ps || (p == y))
has-append y p [] = ground arith
has-append y p (q ∷ ps) = ground (arith, has-append y p ps)

pub Distinct-append :
    (ps : List ℕ) (p : ℕ) → Distinct ps → has p ps ≡ false → Distinct (ps ++ (p ∷ []))
Distinct-append [] p d n = (refl, tt)
Distinct-append (q ∷ ps) p d n =
    (ground (arith, has-append q p ps), Distinct-append ps p d.1 (ground arith))

pub IsQueued-frame :
    (ar : Arena) (m m' : Memory) (offset : ℕ) (ps : List ℕ)
    → IsQueued ar m offset ps
    → ((p : ℕ) → has p ps ≡ true → m' (p + 8) ≡ m (p + 8))
    → IsQueued ar m' offset ps
IsQueued-frame ar m m' offset [] q same = q
IsQueued-frame ar m m' offset (p ∷ ps) q same = (
  q.0,
  rw (same p (ground arith))
      (IsQueued-frame ar m m' (m (p + 8)) ps q.1 λ r i. same r (ground arith)),
)

-- Linking a message behind the last one.
pub IsQueued-append :
    (ar : Arena) (m m' : Memory) (offset q : ℕ) (ps : List ℕ) (p : ℕ)
    → IsQueued ar m offset (q ∷ ps)
    → Distinct (q ∷ ps)
    → m' (last_of (q ∷ ps) + 8) ≡ p - ar.header
    → m' (p + 8) ≡ null_offset
    → ((r : ℕ) → has r (q ∷ ps) ≡ true → r ≢ last_of (q ∷ ps) → m' (r + 8) ≡ m (r + 8))
    → IsQueued ar m' offset (q ∷ (ps ++ (p ∷ [])))
IsQueued-append ar m m' offset q [] p c d linked end same = (c.0, (linked, end))
IsQueued-append ar m m' offset q (r ∷ ps) p c d linked end same = (
  c.0,
  rw (same q (ground arith) (ground (arith, last_of-has r ps))) (
      IsQueued-append ar m m' (m (q + 8)) r ps p c.1 d.1 linked end
        λ z i n. same z (ground arith) n),
)

module _ (ar : Arena) (e : ℕ) (m : Memory) (bs : List Block) (fs ps : List ℕ)
    (v : IsArena ar e m bs fs ps) where
  -- where a message lies
  pub held-bounds : (p : ℕ) → IsHeld ar bs p → (ar.header + 96 ≤ p) × (p + 24 < e)
  held-bounds p h = omega (
    arith,
    v.placed,
    payload-bounds ar.allocator m e p (first_block ar.allocator) bs v.valid.tiled h.0,
    payload-bounds ar.allocator m e (p + 8) (first_block ar.allocator) bs v.valid.tiled h.1,
  )

  pub message_from_offset-held :
      (m' : Memory) (p : ℕ)
      → m' (size_of ar) ≡ m (size_of ar)
      → IsHeld ar bs p
      → transport_message_from_offset ar (p - ar.header) m' ≡ ok p m'
  unfolding transport_message_from_offset
  message_from_offset-held m' p same h =
      ground (arith, same, held-bounds p h, h.2, v.region, v.valid.fits)

  pub message_offset-held : (p : ℕ) → IsHeld ar bs p → transport_message_offset ar p ≡ p - ar.header
  unfolding transport_message_offset
  message_offset-held p h = ground (arith, held-bounds p h)
