-- ===== src/Shm/Drafts.antt =====
-- `transport_shm_message_init` gives its caller a message to write (src/shmem/transport_shm.c).
use libkrossbar.Prelude.{
  ℕ, ◌+◌, ◌-◌, ◌≤◌, ◌<◌, ◌≡◌, ◌≢◌, refl, ◌∙◌, subst, true, false, none, some, List, ◌∷◌, ◌++◌,
  arith, length, inl, inr, ltb, ◌==◌, Bool-cases,
}
use libkrossbar.Memory.{Memory, write, ok, null, null_offset}
use libkrossbar.Allocator.Fields
use libkrossbar.Allocator.Fields.{BlockType, allocated, free, max_message_size_of}
use libkrossbar.Allocator.{allocator_alloc}
use libkrossbar.Allocator.FreeList.{has}
use libkrossbar.Allocator.Layout.{Block, block, Tiled, Tiled-front, Tiled-le}
use libkrossbar.Allocator.Unlink.{Outside}
use libkrossbar.Allocator.Validity.{first_block, IsValid, back}
use libkrossbar.Allocator.Payload.{
  in_payload, payload-append, payload_write-IsValid, payload-Outside,
}
use libkrossbar.Allocator.Split.{kept_size, cut_off}
use libkrossbar.Allocator.Requests.{IsConfigured-same, need, alloc-null, alloc-Took}
use libkrossbar.Shm.{Arena, message_size_of, bson_header, transport_shm_message_init}
use libkrossbar.Shm.Queue.{IsHeld, AreHeld, AreHeld-has, IsArena}
use libkrossbar.Shm.Region.{AreHeld-mono, IsArena-region, payload-kept, payload-cut}
use libkrossbar.Shm.Blocks.{IsDraft}

-- What a new message comes to: the arena has the same messages, and the new one is a draft.
pub record Drafted (ar : Arena) (e fuel : ℕ) (m : Memory) (bs : List Block) (ps : List ℕ) (size : ℕ)
    : Type 0 where
  pub message : ℕ
  pub memory : Memory
  pub blocks : List Block
  pub list : List ℕ
  pub runs : transport_shm_message_init fuel ar size m ≡ ok (some message) memory
  pub arena : IsArena ar e memory blocks list ps
  pub draft : IsDraft ar memory blocks ps message
  pub measured : memory (message_size_of message) ≡ size
  -- room for the largest message, where no word was allocated
  pub large : need ar.allocator m ≤ draft.size
  pub apart :
      (y : ℕ) → in_payload y (first_block ar.allocator) bs ≡ true → Outside draft.at draft.size y
  -- what the payloads of the allocated blocks hold stays
  pub kept : (y : ℕ) → in_payload y (first_block ar.allocator) bs ≡ true → memory y ≡ m y

-- The headers of the message in the block at `x` and of its document are written.
unfoldable draft_at : Memory → ℕ → ℕ → Memory
draft_at m x size =
    let headed = write (write m (x + 24) size) (x + 24 + 8) null_offset in
    write headed (x + 24 + 16) (bson_header (headed (x + 24 + 16)))

module _ (ar : Arena) (e : ℕ) (m : Memory) (bs : List Block) (fs ps : List ℕ)
    (v : IsArena ar e m bs fs ps) (fuel size : ℕ) (enough : length fs < fuel) where
  -- No listed block is large enough.
  pub init-null :
      ((f : ℕ) → has f fs ≡ true → m f < need ar.allocator m)
      → transport_shm_message_init fuel ar size m ≡ ok none m
  unfolding transport_shm_message_init
  init-null all =
      rw (alloc-null ar.allocator m e bs fs v.valid v.configured v.released fuel enough all) refl

  module _ (room : 21 ≤ m (max_message_size_of ar.allocator)) (m1 : Memory) (x s : ℕ)
      (before after : List Block) (fs1 : List ℕ)
      (run : transport_shm_message_init fuel ar size m ≡ ok (some (x + 24)) (draft_at m1 x size))
      (whole : bs ≡ before ++ (block s free ∷ after))
      (front : Tiled ar.allocator m (first_block ar.allocator) before x)
      (large : need ar.allocator m ≤ s)
      (valid : IsValid ar.allocator m1 e
        (before
          ++ (block (kept_size s (need ar.allocator m)) allocated
              ∷ (cut_off s (need ar.allocator m) ++ after)))
        fs1)
      (configured : m1 (max_message_size_of ar.allocator) ≡ m (max_message_size_of ar.allocator))
      (unlocked : m1 (Fields.futex_of ar.allocator) ≡ 0)
      (below : (q : ℕ) → q < ar.allocator.header → m1 q ≡ m q)
      (kept : (q : ℕ) → in_payload q (first_block ar.allocator) bs ≡ true → m1 q ≡ m q) where
    abbrev n : ℕ
    n = kept_size s (need ar.allocator m)

    abbrev blocks_with : BlockType → List Block
    blocks_with t = before ++ (block n t ∷ (cut_off s (need ar.allocator m) ++ after))

    n-large : need ar.allocator m ≤ n
    n-large = ground (arith, large)

    -- The payloads of the other blocks, whatever the block at `x` is.
    others_payload :
        (t : BlockType) (y : ℕ)
        → in_payload y (first_block ar.allocator) bs ≡ true
        → in_payload y (first_block ar.allocator) (blocks_with t) ≡ true
    others_payload t y h = elim (Bool-cases (ltb s (need ar.allocator m + 104))) [
      | inl short ↦
          rw short
            (payload-kept ar.allocator m before after x s front y (block s t) refl (rw whole at h))
      | inr long ↦ rw long (
          payload-cut ar.allocator m before after x s front y (need ar.allocator m)
            (block (need ar.allocator m) t) (block (s - need ar.allocator m) free) refl refl large
            (rw whole at h))
    ]

    others_held : (t : BlockType) → AreHeld ar (blocks_with t) ps
    others_held t = AreHeld-mono ar bs (blocks_with t) ps (others_payload t) v.held

    front1 : Tiled ar.allocator m1 (first_block ar.allocator) before x
    front1 = Tiled-front ar.allocator m m1 (first_block ar.allocator) e x before _ front valid.tiled

    own_payload :
        (y : ℕ)
        → x + 24 ≤ y
        → y ≤ x + 40
        → in_payload y (first_block ar.allocator) (blocks_with allocated) ≡ true
    own_payload y lo hi =
        rw
          (payload-append ar.allocator m1 y (first_block ar.allocator) before
            (block n allocated ∷ (cut_off s (need ar.allocator m) ++ after)) x front1)
          (ground (arith, wide))
      where
        wide : y + 16 < x + n
        wide = omega (arith, n-large, room)

    high : first_block ar.allocator ≤ x
    high = Tiled-le ar.allocator m x (first_block ar.allocator) before front

    own : IsHeld ar (blocks_with allocated) (x + 24)
    own = (
      own_payload (x + 24) (omega arith) (omega arith),
      own_payload (x + 24 + 8) (omega arith) (omega arith),
      omega (
        arith,
        v.placed,
        high,
        (back ar.allocator m1 e before _ fs1 x (block n allocated) valid front1).0.aligned,
      ),
    )

    drafted : Memory
    drafted = draft_at m1 x size

    drafted-IsValid : IsValid ar.allocator drafted e (blocks_with allocated) fs1
    unfolding drafted draft_at
    drafted-IsValid =
        payload_write-IsValid ar.allocator (write (write m1 (x + 24) size) (x + 24 + 8) null_offset)
          e (x + 24 + 16) _ _ fs1
          (payload_write-IsValid ar.allocator (write m1 (x + 24) size) e (x + 24 + 8) null_offset _
            fs1 (payload_write-IsValid ar.allocator m1 e (x + 24) size _ fs1 valid own.0) own.1)
          (own_payload (x + 24 + 16) (omega arith) (omega arith))

    drafted_ne : (y : ℕ) → y ≢ x + 24 → y ≢ x + 24 + 8 → y ≢ x + 24 + 16 → drafted y ≡ m1 y
    unfolding drafted draft_at write
    drafted_ne y ne nf nd = ground arith

    drafted_low : (y : ℕ) → y < x + 24 → drafted y ≡ m1 y
    drafted_low y lt = drafted_ne y (omega arith) (omega arith) (omega arith)

    drafted_words : (drafted (x + 24) ≡ size) × (drafted (x + 24 + 8) ≡ null_offset)
    unfolding drafted draft_at write
    drafted_words = (ground arith, ground arith)

    apart : (y : ℕ) → in_payload y (first_block ar.allocator) bs ≡ true → Outside x s y
    apart y h =
        payload-Outside ar.allocator m e before after fs x s
          (subst (λ l. IsValid ar.allocator m e l fs) whole v.valid) front y (rw whole at h)

    n-small : n ≤ s
    n-small = ground (arith, large)

    -- The other payloads are as they were.
    spared : (y : ℕ) → in_payload y (first_block ar.allocator) bs ≡ true → drafted y ≡ m y
    spared y h =
        let out = apart y h in
        drafted_ne y (omega (arith, out, wide)) (omega (arith, out, wide))
          (omega (arith, out, wide))
        ∙ kept y h
      where
        wide : 57 ≤ s
        wide = omega (arith, large, room)

    Drafted-chunk : Drafted ar e fuel m bs ps size
    unfolding drafted
    Drafted-chunk = record {
      message = x + 24;
      memory = drafted;
      blocks = blocks_with allocated;
      list = fs1;
      runs = run;
      arena =
          IsArena-region ar e m drafted bs (blocks_with allocated) fs fs1 ps v drafted-IsValid
            (IsConfigured-same ar.allocator m drafted
              (drafted_low (max_message_size_of ar.allocator) (omega (arith, high)) ∙ configured)
              v.configured)
            (drafted_low (Fields.futex_of ar.allocator) (omega (arith, high)) ∙ unlocked)
            (λ y lt. drafted_low y (omega (arith, high)) ∙ below y lt) (others_held allocated)
            λ r i. spared (r + 8) (AreHeld-has ar bs r ps v.held i).1;
      draft = record {
        at = x;
        size = n;
        before = before;
        after = cut_off s (need ar.allocator m) ++ after;
        payload = refl;
        whole = refl;
        stands =
            Tiled-front ar.allocator m drafted (first_block ar.allocator) e x before _ front
              drafted-IsValid.tiled;
        own = own;
        others = others_held free;
        fresh = drafted_words.1;
      };
      measured = drafted_words.0;
      large = n-large;
      apart = λ y h. omega (arith, apart y h, n-small);
      kept = spared;
    }

  init_run :
      (y : ℕ) (m1 : Memory) (x : ℕ)
      → allocator_alloc fuel ar.allocator m ≡ ok y m1
      → y ≡ x + 24
      → transport_shm_message_init fuel ar size m ≡ ok (some (x + 24)) (draft_at m1 x size)
  unfolding transport_shm_message_init draft_at
  init_run y m1 x run at = rw (run, at, some_chunk) refl
    where
      some_chunk : (x + 24 == null) ≡ false
      some_chunk = ground arith

  -- On an arena between two calls whose largest message, header included, has 21 bytes or more,
  -- with more fuel than free blocks and a listed block that is large enough:
  -- `transport_shm_message_init` returns a message in a block with room for the largest message.
  -- The message's header is written, no word of the block was in the payload of a block that was
  -- allocated, and those payloads are as they were. The list of messages is as it was, and no
  -- message of it has one of its two header words in the new block's payload.
  pub message_init-Drafted :
      21 ≤ m (max_message_size_of ar.allocator)
      → (g : ℕ) → has g fs ≡ true
      → need ar.allocator m ≤ m g
      → Drafted ar e fuel m bs ps size
  message_init-Drafted room g i l =
      let (y, m1, run, t) =
        alloc-Took ar.allocator m e bs fs v.valid v.configured v.released fuel enough g i l in
      Drafted-chunk room m1 t.at t.size t.before t.after _ (init_run y m1 t.at run t.payload)
        t.was_free t.stands t.large t.valid t.configured t.unlocked t.below t.kept
