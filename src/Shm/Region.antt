-- ===== src/Shm/Region.antt =====
-- What the allocator does in an arena (src/shmem/allocator.c), seen from the list of messages of
-- src/shmem/transport_shm.c: the messages that lie in blocks which stay allocated are untouched.
use libkrossbar.Prelude.{ℕ, ◌+◌, ◌-◌, ◌≤◌, ◌<◌, ◌≡◌, ◌∙◌, true, List, [], ◌∷◌, ◌++◌, arith, length}
use libkrossbar.Memory.{Memory, ok, add_size}
use libkrossbar.Allocator.Fields
use libkrossbar.Allocator.Fields.{
  Allocator, BlockType, allocated, free, max_message_size_of, free_size_of,
}
use libkrossbar.Allocator.FreeList.{has}
use libkrossbar.Allocator.Layout.{Block, block, Tiled}
use libkrossbar.Allocator.Validity.{first_block, IsValid}
use libkrossbar.Allocator.Payload.{in_payload, payload-append}
use libkrossbar.Allocator.Requests.{IsConfigured, IsConfigured-same}
use libkrossbar.Allocator.Released.{free-Released}
use libkrossbar.Shm.{
  Arena, size_of, num_messages_of, futex_of, first_message_of, last_message_of,
  transport_shm_message_release,
}
use libkrossbar.Shm.Queue.{IsQueued-frame, AreHeld, AreHeld-has, IsArena}

pub AreHeld-mono :
    (ar : Arena) (bs bs' : List Block) (ps : List ℕ)
    → ((y : ℕ)
        → in_payload y (first_block ar.allocator) bs ≡ true
        → in_payload y (first_block ar.allocator) bs' ≡ true)
    → AreHeld ar bs ps
    → AreHeld ar bs' ps
AreHeld-mono ar bs bs' [] more h = tt
AreHeld-mono ar bs bs' (p ∷ ps) more h =
    ((more p h.0.0, more (p + 8) h.0.1, h.0.2), AreHeld-mono ar bs bs' ps more h.1)

-- A change behind the arena's header that keeps the region valid and the links of the messages.
pub IsArena-region :
    (ar : Arena) (e : ℕ) (m m' : Memory) (bs bs' : List Block) (fs fs' ps : List ℕ)
    → IsArena ar e m bs fs ps
    → IsValid ar.allocator m' e bs' fs'
    → IsConfigured ar.allocator m'
    → m' (Fields.futex_of ar.allocator) ≡ 0
    → ((y : ℕ) → y < ar.allocator.header → m' y ≡ m y)
    → AreHeld ar bs' ps
    → ((p : ℕ) → has p ps ≡ true → m' (p + 8) ≡ m (p + 8))
    → IsArena ar e m' bs' fs' ps
IsArena-region ar e m m' bs bs' fs fs' ps v valid configured released below held same = record {
  placed = v.placed;
  region = rw (header (size_of ar) (omega arith)) v.region;
  valid = valid;
  configured = configured;
  released = released;
  unlocked = header (futex_of ar) (omega arith) ∙ v.unlocked;
  counted = header (num_messages_of ar) (omega arith) ∙ v.counted;
  bounded = v.bounded;
  queued =
      rw (header (first_message_of ar) (omega arith))
        (IsQueued-frame ar m m' (m (first_message_of ar)) ps v.queued same);
  last = header (last_message_of ar) (omega arith) ∙ v.last;
  held = held;
  distinct = v.distinct;
}
  where
    header : (y : ℕ) → y < ar.header + 32 → m' y ≡ m y
    header y lt = below y (omega (arith, v.placed))

-- What the release of the message in the block of `s` bytes at `x` has done; `others` are the blocks
-- with that one free.
pub record MessageReleased (ar : Arena) (e : ℕ) (m : Memory) (fuel x s : ℕ) (others : List Block)
    (ps : List ℕ) : Type 0 where
  pub memory : Memory
  pub blocks : List Block
  pub list : List ℕ
  pub runs : transport_shm_message_release fuel ar (x + 24) m ≡ ok tt memory
  pub arena : IsArena ar e memory blocks list ps
  -- the account of free bytes is more by the block
  pub credited : memory (free_size_of ar.allocator) ≡ add_size (m (free_size_of ar.allocator)) s
  -- what is allocated is what stays allocated without the block, and it is as it was
  pub payloads :
      (y : ℕ)
      → in_payload y (first_block ar.allocator) blocks
        ≡ in_payload y (first_block ar.allocator) others
  pub kept : (y : ℕ) → in_payload y (first_block ar.allocator) others ≡ true → memory y ≡ m y

-- On an arena between two calls, with more fuel than free blocks: `transport_shm_message_release`
-- of a message at the start of any allocated block but the last one, of whose payload no message of
-- the list has its two header words, returns. The arena has the same messages, in their order, the
-- account of free bytes is more by the block, the words that are allocated are those of the other
-- allocated blocks, and each of them is as it was.
pub release-IsArena :
    (ar : Arena) (e : ℕ) (m : Memory) (before after : List Block) (x s t : ℕ) (type : BlockType)
    (fs ps : List ℕ) (fuel : ℕ)
    → IsArena ar e m (before ++ (block s allocated ∷ block t type ∷ after)) fs ps
    → Tiled ar.allocator m (first_block ar.allocator) before x
    → AreHeld ar (before ++ (block s free ∷ block t type ∷ after)) ps
    → length fs < fuel
    → MessageReleased ar e m fuel x s (before ++ (block s free ∷ block t type ∷ after)) ps
unfolding transport_shm_message_release
release-IsArena ar e m before after x s t type fs ps fuel v front others enough =
    let r =
      free-Released ar.allocator m e s t type after fs v.released fuel enough before x v.valid
        front in
    let held : AreHeld ar r.blocks ps =
      AreHeld-mono ar (before ++ (block s free ∷ block t type ∷ after)) r.blocks ps
        (λ y i. r.same y ∙ i) others in
    record {
      memory = r.after;
      blocks = r.blocks;
      list = r.freed.list;
      runs = r.runs;
      arena =
          IsArena-region ar e m r.after _ r.blocks fs r.freed.list ps v r.freed.valid
            (IsConfigured-same ar.allocator m r.after r.freed.configured v.configured)
            r.freed.unlocked r.freed.below held
            λ p i. r.freed.kept (p + 8) (AreHeld-has ar r.blocks p ps held i).1;
      credited = r.freed.accounted;
      payloads = r.same;
      kept = λ y i. r.freed.kept y (r.same y ∙ i);
    }

-- The payloads of the other blocks, when a block of `s` bytes at `x` gives way to blocks that fill
-- the same place.
module _ (a : Allocator) (m : Memory) (before after : List Block) (x s : ℕ)
    (front : Tiled a m (first_block a) before x) where
  pub payload-kept :
      (y : ℕ) (b : Block)
      → b.size ≡ s
      → in_payload y (first_block a) (before ++ (block s free ∷ after)) ≡ true
      → in_payload y (first_block a) (before ++ (b ∷ after)) ≡ true
  payload-kept y b same h = ground (
    arith,
    same,
    payload-append a m y (first_block a) before (block s free ∷ after) x front,
    payload-append a m y (first_block a) before (b ∷ after) x front,
  )

  pub payload-cut :
      (y n : ℕ) (b c : Block)
      → b.size ≡ n
      → c.size ≡ s - n
      → n ≤ s
      → in_payload y (first_block a) (before ++ (block s free ∷ after)) ≡ true
      → in_payload y (first_block a) (before ++ (b ∷ c ∷ after)) ≡ true
  payload-cut y n b c same rest le h = ground (
    arith,
    same,
    rest,
    sum,
    payload-append a m y (first_block a) before (block s free ∷ after) x front,
    payload-append a m y (first_block a) before (b ∷ c ∷ after) x front,
  )
    where
      sum : x + n + (s - n) ≡ x + s
      sum = omega arith
