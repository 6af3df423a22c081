-- ===== src/Shm/Blocks.antt =====
-- The blocks of messages that are written or were sent (src/shmem/transport_shm.c): what lies in the
-- block of a message that its sender is writing, and how much room it has after the send.
use libkrossbar.Prelude.{
  ℕ, ◌+◌, ◌≤◌, ◌<◌, ◌≡◌, ◌≢◌, subst, true, false, List, ◌∷◌, ◌++◌, arith, inl, inr, Bool-cases,
}
use libkrossbar.Memory.{Memory, null_offset}
use libkrossbar.Allocator.Fields.{allocated, free}
use libkrossbar.Allocator.FreeList.{has}
use libkrossbar.Allocator.Layout.{Block, block, Tiled, Tiled-front}
use libkrossbar.Allocator.Validity.{first_block, IsValid, back}
use libkrossbar.Allocator.Payload.{in_payload, payload-append, payload-bounds}
use libkrossbar.Allocator.Trim.{block_for}
use libkrossbar.Shm.{Arena}
use libkrossbar.Shm.Queue.{IsHeld, AreHeld, AreHeld-has}

-- A message at `p` that its sender is still writing: its header stands at the start of a payload that
-- no message of the list `ps` has one of its two header words in.
pub record IsDraft (ar : Arena) (m : Memory) (bs : List Block) (ps : List ℕ) (p : ℕ) : Type 0 where
  pub at : ℕ
  pub size : ℕ
  pub before : List Block
  pub after : List Block
  pub payload : p ≡ at + 24
  pub whole : bs ≡ before ++ (block size allocated ∷ after)
  pub stands : Tiled ar.allocator m (first_block ar.allocator) before at
  pub own : IsHeld ar bs p
  pub others : AreHeld ar (before ++ (block size free ∷ after)) ps
  pub fresh : m (p + 8) ≡ null_offset

-- The header of a message in the block at `x` is in no other payload.
module _ (ar : Arena) (e : ℕ) (m : Memory) (before after : List Block) (fs : List ℕ) (x s : ℕ)
    (v : IsValid ar.allocator m e (before ++ (block s allocated ∷ after)) fs)
    (front : Tiled ar.allocator m (first_block ar.allocator) before x) where
  pub payload_alone :
      (y : ℕ)
      → x + 24 ≤ y
      → y + 16 < x + s
      → in_payload y (first_block ar.allocator) (before ++ (block s free ∷ after)) ≡ false
  payload_alone y lo hi =
      let rest = back ar.allocator m e before after fs x (block s allocated) v front in
      ground (
        arith,
        payload-append ar.allocator m y (first_block ar.allocator) before (block s free ∷ after) x
            front,
        payload-bounds ar.allocator m x y (first_block ar.allocator) before front,
        payload-bounds ar.allocator m e y (x + s) after rest.1,
      )

  payload_own :
      in_payload (x + 24) (first_block ar.allocator) (before ++ (block s free ∷ after)) ≡ false
  payload_own =
      let rest = back ar.allocator m e before after fs x (block s allocated) v front in
      payload_alone (x + 24) (omega arith) (omega (arith, rest.0.big))

  pub draft-unlisted :
      (ps : List ℕ) → AreHeld ar (before ++ (block s free ∷ after)) ps → has (x + 24) ps ≡ false
  draft-unlisted ps h = elim (Bool-cases (has (x + 24) ps)) [
    | inr other ↦ other
    | inl listed ↦ absurd (
        ground (
          arith,
          payload_own,
          AreHeld-has ar (before ++ (block s free ∷ after)) (x + 24) ps h listed,
        ))
  ]

  pub payload_apart :
      (y : ℕ)
      → x + 24 ≤ y
      → y + 16 < x + s
      → (ps : List ℕ) → AreHeld ar (before ++ (block s free ∷ after)) ps
      → (r : ℕ) → has r ps ≡ true
      → y ≢ r + 8
  payload_apart y lo hi ps h r i same = absurd (
      ground (
        arith,
        payload_alone y lo hi,
        same,
        AreHeld-has ar (before ++ (block s free ∷ after)) r ps h i,
      ))

  pub draft_apart :
      (ps : List ℕ)
      → AreHeld ar (before ++ (block s free ∷ after)) ps
      → (r : ℕ) → has r ps ≡ true
      → x + 24 ≢ r + 8
  draft_apart =
      let rest = back ar.allocator m e before after fs x (block s allocated) v front in
      payload_apart (x + 24) (omega arith) (omega (arith, rest.0.big))

-- The block of the message at `p` is allocated and has no room for another one behind the document of
-- `written` bytes, which lies with the message's header in its payload.
pub record IsCut (ar : Arena) (m : Memory) (bs : List Block) (p written : ℕ) : Type 0 where
  pub at : ℕ
  pub size : ℕ
  pub before : List Block
  pub after : List Block
  pub payload : p ≡ at + 24
  pub whole : bs ≡ before ++ (block size allocated ∷ after)
  pub stands : Tiled ar.allocator m (first_block ar.allocator) before at
  pub holds : written + 56 ≤ size
  pub tight : size < block_for (written + 16) + 104

pub IsCut-frame :
    (ar : Arena) (e : ℕ) (m m' : Memory) (bs : List Block) (p written : ℕ)
    → IsCut ar m bs p written
    → Tiled ar.allocator m' (first_block ar.allocator) bs e
    → IsCut ar m' bs p written
IsCut-frame ar e m m' bs p written c tiled = record {
  at = c.at;
  size = c.size;
  before = c.before;
  after = c.after;
  payload = c.payload;
  whole = c.whole;
  stands =
      Tiled-front ar.allocator m m' (first_block ar.allocator) e c.at c.before
        (block c.size allocated ∷ c.after) c.stands
        (subst (λ l. Tiled ar.allocator m' (first_block ar.allocator) l e) c.whole tiled);
  holds = c.holds;
  tight = c.tight;
}
