-- ===== src/Shm/Send.antt =====
-- `transport_shm_message_send` of a message that its sender has written (src/shmem/transport_shm.c):
-- its block is cut to the size of its document, and it goes behind the others.
use libkrossbar.Prelude.{
  ℕ, ◌+◌, ◌-◌, ◌^◌, ◌≤◌, ◌<◌, ◌≡◌, ◌≢◌, refl, sym, ap, ◌∙◌, subst, true, List, [], ◌∷◌, ◌++◌, arith,
  length, inl, inr, ltb, Bool-cases,
}
use libkrossbar.Memory.{Memory, write, ok, null_offset, add_size}
use libkrossbar.Allocator.Fields
use libkrossbar.Allocator.Fields.{Allocator, BlockType, allocated, free, max_message_size_of}
use libkrossbar.Allocator.{allocator_trim}
use libkrossbar.Allocator.Layout.{Block, block, Tiled, Tiled-front}
use libkrossbar.Allocator.Validity.{first_block}
use libkrossbar.Allocator.Payload.{
  in_payload, payload-append, payload-bounds, payload_write-IsValid,
}
use libkrossbar.Allocator.Trim.{block_for, trim-same, trim-split}
use libkrossbar.Allocator.Requests.{IsConfigured-same}
use libkrossbar.Shm.{Arena, message_size_of, append_message, transport_shm_message_send}
use libkrossbar.Shm.Queue.{last_of, last_of-has, IsHeld, AreHeld, AreHeld-has, IsArena, held-bounds}
use libkrossbar.Shm.Blocks.{IsDraft, IsCut, draft-unlisted, draft_apart, payload_apart}
use libkrossbar.Shm.Append.{append-IsArena, appended_ne}
use libkrossbar.Shm.Region.{AreHeld-mono, IsArena-region, payload-cut}

-- What the send of `p` has done.
pub record Sent (ar : Arena) (e : ℕ) (m : Memory) (ps : List ℕ) (p written : ℕ) : Type 0 where
  pub memory : Memory
  pub blocks : List Block
  pub list : List ℕ
  pub runs : transport_shm_message_send ar p written m ≡ ok tt memory
  pub arena : IsArena ar e memory blocks list (ps ++ (p ∷ []))
  pub measured : memory (message_size_of p) ≡ written
  pub cut : IsCut ar memory blocks p written
  -- the bytes of the document
  pub document : (y : ℕ) → p + 16 ≤ y → y < p + 16 + written → memory y ≡ m y
  -- what the other words of the payloads hold stays, but for the link to the new message
  pub kept :
      (y : ℕ)
      → in_payload y (first_block ar.allocator) blocks ≡ true
      → y ≢ p
      → y ≢ last_of ps + 8
      → memory y ≡ m y

module _ (ar : Arena) (e : ℕ) (m : Memory) (before after : List Block) (fs ps : List ℕ) (x s : ℕ)
    (v : IsArena ar e m (before ++ (block s allocated ∷ after)) fs ps)
    (front : Tiled ar.allocator m (first_block ar.allocator) before x)
    (own : IsHeld ar (before ++ (block s allocated ∷ after)) (x + 24))
    (others : AreHeld ar (before ++ (block s free ∷ after)) ps) (written : ℕ)
    (small : written + 176 < 2 ^ 64) (fits : written + 56 ≤ s) where
  measure : Memory
  measure = write m (x + 24) written

  measure_ne : (y : ℕ) → y ≢ x + 24 → measure y ≡ m y
  unfolding measure write
  measure_ne y ne = ground arith

  measure-written : measure (x + 24) ≡ written
  unfolding measure write
  measure-written = ground arith

  high : ar.header + 96 ≤ x + 24
  high = (held-bounds ar e m _ fs ps v (x + 24) own).0

  measure-IsArena : IsArena ar e measure (before ++ (block s allocated ∷ after)) fs ps
  unfolding measure write
  measure-IsArena =
      IsArena-region ar e m measure _ _ fs fs ps v
        (payload_write-IsValid ar.allocator m e (x + 24) written _ fs v.valid own.0)
        (IsConfigured-same ar.allocator m measure
          (words (max_message_size_of ar.allocator) (omega (arith, v.placed))) v.configured)
        (words (Fields.futex_of ar.allocator) (omega (arith, v.placed)) ∙ v.released)
        (λ y lt. words y (omega (arith, v.placed))) v.held
        λ r i.
          measure_ne (r + 8) λ q.
            draft_apart ar e m before after fs x s v.valid front ps others r i (omega (arith, q))
    where
      words : (y : ℕ) → y < ar.header + 96 → measure y ≡ m y
      words y lt = measure_ne y (omega (arith, high))

  last_beyond : (y : ℕ) → x + 24 ≤ y → y + 16 < x + s → y ≢ last_of ps + 8
  last_beyond y lo hi = unlinked ps others
    where
      unlinked : (l : List ℕ) → AreHeld ar (before ++ (block s free ∷ after)) l → y ≢ last_of l + 8
      unlinked [] h = λ q. omega (arith, high, q)
      unlinked (r ∷ l) h =
          payload_apart ar e m before after fs x s v.valid front y lo hi (r ∷ l) h (last_of (r ∷ l))
            (last_of-has r l)

  payload_within :
      (y n : ℕ) (after' : List Block)
      → x + 24 ≤ y
      → y + 16 < x + n
      → in_payload y (first_block ar.allocator) (before ++ (block n allocated ∷ after')) ≡ true
  payload_within y n after' lo hi =
      rw
        (payload-append ar.allocator m y (first_block ar.allocator) before
          (block n allocated ∷ after') x front)
        (ground arith)

  -- The send, once the memory `m'` after the trim is known.
  trimmed-Sent :
      (m' : Memory) (n : ℕ) (after' : List Block) (fs' : List ℕ)
      → let bs' = before ++ (block n allocated ∷ after') in
        transport_shm_message_send ar (x + 24) written m ≡ append_message ar (x + 24) m'
        → IsArena ar e m' bs' fs' ps
        → IsHeld ar bs' (x + 24)
        → ((y : ℕ) → in_payload y (first_block ar.allocator) bs' ≡ true → m' y ≡ measure y)
        → written + 56 ≤ n
        → n ≤ s
        → n < block_for (written + 16) + 104
        → m (x + 24 + 8) ≡ null_offset
        → length ps + 1 < 2 ^ 32
        → Sent ar e m ps (x + 24) written
  trimmed-Sent m' n after' fs' run v' own' kept holds le tight fresh few =
      let bs' = before ++ (block n allocated ∷ after') in
      let end : m' (x + 24 + 8) ≡ null_offset =
        kept (x + 24 + 8) own'.1 ∙ measure_ne (x + 24 + 8) (omega arith) ∙ fresh in
      let done =
        append-IsArena ar e m' bs' fs' (x + 24) own' end ps v'
          (draft-unlisted ar e m before after fs x s v.valid front ps others) few in
      let words =
        λ (y : ℕ) (h : in_payload y (first_block ar.allocator) bs' ≡ true) (ne : y ≢ x + 24)
            (nl : y ≢ last_of ps + 8).
          appended_ne ar e m' bs' fs' (x + 24) own' end ps y
            (omega (arith, v.placed, payload-bounds ar.allocator m' e y _ bs' v'.valid.tiled h)) nl
          ∙ kept y h
          ∙ measure_ne y ne in
      record {
        memory = _;
        blocks = bs';
        list = fs';
        runs = run ∙ done.0;
        arena = done.1;
        measured =
            appended_ne ar e m' bs' fs' (x + 24) own' end ps (x + 24) (omega (arith, high))
              (last_beyond (x + 24) (omega arith) (omega (arith, holds)))
            ∙ kept (x + 24) own'.0
            ∙ measure-written;
        cut = record {
          at = x;
          size = n;
          before = before;
          after = after';
          payload = refl;
          whole = refl;
          stands =
              Tiled-front ar.allocator m _ (first_block ar.allocator) e x before
                (block n allocated ∷ after') front done.1.valid.tiled;
          holds = holds;
          tight = tight;
        };
        document = λ y lo hi.
            words y (payload_within y n after' (omega arith) (omega (arith, holds))) (omega arith)
              (last_beyond y (omega arith) (omega (arith, holds, le)));
        kept = words;
      }

  send_run :
      (m' : Memory)
      → allocator_trim ar.allocator (x + 24) (written + 16) measure ≡ ok tt m'
      → transport_shm_message_send ar (x + 24) written m ≡ append_message ar (x + 24) m'
  unfolding transport_shm_message_send measure
  send_run m' run = rw (sizes, run) refl
    where
      sizes : add_size written 16 ≡ written + 16
      sizes = omega arith

  front' : Tiled ar.allocator measure (first_block ar.allocator) before x
  front' =
      Tiled-front ar.allocator m measure (first_block ar.allocator) e x before
        (block s allocated ∷ after) front measure-IsArena.valid.tiled

  module _ (long : block_for (written + 16) + 104 ≤ s) where
    abbrev cut_blocks : List Block
    cut_blocks =
        before
        ++ (block (block_for (written + 16)) allocated
            ∷ block (s - block_for (written + 16)) free
            ∷ after)

    room : written + 56 ≤ block_for (written + 16)
    room = omega (arith, small)

    cut_own : IsHeld ar cut_blocks (x + 24)
    cut_own = (
      payload_within (x + 24) (block_for (written + 16)) _ (omega arith) (omega (arith, room)),
      payload_within (x + 24 + 8) (block_for (written + 16)) _ (omega arith) (omega (arith, room)),
      own.2,
    )

    cut_held : AreHeld ar cut_blocks ps
    cut_held =
        AreHeld-mono ar (before ++ (block s free ∷ after)) cut_blocks ps
          (λ y h.
            payload-cut ar.allocator m before after x s front y (block_for (written + 16))
              (block (block_for (written + 16)) allocated)
              (block (s - block_for (written + 16)) free) refl refl (omega (arith, long)) h)
          others

    cut_draft :
        m (x + 24 + 8) ≡ null_offset → length ps + 1 < 2 ^ 32 → Sent ar e m ps (x + 24) written
    cut_draft fresh few =
        let (m', run, t) =
          trim-split ar.allocator measure e before after fs x s (written + 16) measure-IsArena.valid
            front' measure-IsArena.released (omega arith) (omega arith) long in
        trimmed-Sent m' (block_for (written + 16))
          (block (s - block_for (written + 16)) free ∷ after) _ (send_run m' run)
          (IsArena-region ar e measure m' _ cut_blocks fs _ ps measure-IsArena t.valid
            (IsConfigured-same ar.allocator measure m' t.configured measure-IsArena.configured)
            t.unlocked t.below cut_held
            λ r i. t.kept (r + 8) (AreHeld-has ar cut_blocks r ps cut_held i).1)
          cut_own t.kept room (omega (arith, long)) (omega arith) fresh few

  trim_draft :
      m (x + 24 + 8) ≡ null_offset → length ps + 1 < 2 ^ 32 → Sent ar e m ps (x + 24) written
  trim_draft fresh few = elim (Bool-cases (ltb s (block_for (written + 16) + 104))) [
    | inl short ↦
        trimmed-Sent measure s after fs
          (send_run measure (
            trim-same ar.allocator measure e before after fs x s (written + 16)
              measure-IsArena.valid front' measure-IsArena.released (omega arith) (omega arith)
              (ground arith)))
          measure-IsArena own (λ y h. refl) fits (omega arith) (ground arith) fresh few
    | inr long ↦ cut_draft (ground arith) fresh few
  ]

-- On an arena between two calls, with a document below 2^64 - 176 bytes that fits its block and
-- fewer than 2^32 - 1 messages: `transport_shm_message_send` of a message that its sender has
-- written comes through. The message is behind all others, which keep their order, and its size is
-- the document's. Its block is cut: it stays allocated, holds the header and the document, and has
-- no room for another block behind them. The document's bytes are as they were, and so is whatever
-- else is allocated but for the message's size and the link to it.
pub message_send-Sent :
    (ar : Arena) (e : ℕ) (m : Memory) (bs : List Block) (fs ps : List ℕ) (p written : ℕ)
    → IsArena ar e m bs fs ps
    → (draft : IsDraft ar m bs ps p) → written + 56 ≤ draft.size
    → written + 176 < 2 ^ 64
    → length ps + 1 < 2 ^ 32
    → Sent ar e m ps p written
message_send-Sent ar e m bs fs ps p written v d fits small few =
    subst (λ q. Sent ar e m ps q written) (sym d.payload)
      (trim_draft ar e m d.before d.after fs ps d.at d.size
        (subst (λ l. IsArena ar e m l fs ps) d.whole v) d.stands
        (subst (λ l. IsHeld ar l (d.at + 24)) d.whole (subst (IsHeld ar bs) d.payload d.own))
        d.others written small fits (ap (λ q. m (q + 8)) (sym d.payload) ∙ d.fresh) few)
