-- ===== src/Shm/Delivery.antt =====
-- Messages through an arena of src/shmem/transport_shm.c, from the sender to the receiver.
use libkrossbar.Prelude.{
  ℕ, zero, suc, ◌+◌, ◌^◌, ◌≤◌, ◌<◌, ◌≡◌, ◌≢◌, refl, sym, ◌∙◌, true, Option, some, List, [], ◌∷◌,
  ◌++◌, arith, length, length-append, map,
}
use libkrossbar.Memory.{Memory, Cmd, pure, ok, ◌>>=◌, ◌>>◌}
use libkrossbar.Allocator.Layout.{Block}
use libkrossbar.Allocator.Validity.{first_block}
use libkrossbar.Allocator.Payload.{in_payload, payload-bounds}
use libkrossbar.Shm.{
  Arena, message_size_of, transport_shm_message_send, transport_shm_message_receive,
}
use libkrossbar.Shm.Queue.{last_of, IsArena, held-bounds}
use libkrossbar.Shm.Receive.{receive-IsReceived}
use libkrossbar.Shm.Blocks.{IsDraft, IsCut, IsCut-frame}
use libkrossbar.Shm.Send.{message_send-Sent}

-- `n` calls of `transport_shm_message_receive`, and what they return.
abbrev pub receive_all : Arena → ℕ → Cmd (List (Option ℕ))
receive_all ar zero = pure []
receive_all ar (suc n) = transport_shm_message_receive ar >>= λ message.
    receive_all ar n >>= λ rest. pure (message ∷ rest)

module _ (ar : Arena) (e : ℕ) (bs : List Block) (fs : List ℕ) where
  receive_all_lem :
      (m : Memory) (ps : List ℕ)
      → IsArena ar e m bs fs ps
      → (m' : Memory) × (receive_all ar (length ps) m ≡ ok (map some ps) m')
        × IsArena ar e m' bs fs []
        × ((y : ℕ) → ar.header + 32 ≤ y → m' y ≡ m y)
  receive_all_lem m [] v = (m, refl, v, λ y lo. refl)
  receive_all_lem m (q ∷ ps) v =
      let (m1, run, v1, kept) = receive-IsReceived ar e m bs fs (q ∷ ps) v in
      let (m', runs, v', kept') = receive_all_lem m1 ps v1 in
      (m', rw (run, runs) refl, v', λ y lo. kept' y lo ∙ kept y lo)

-- What the receiver gets of a message sent behind `ps`: all messages in their order, the new one last
-- with its size, and every other word of the payloads as the senders wrote it.
pub record Delivered (ar : Arena) (e : ℕ) (m : Memory) (ps : List ℕ) (p written : ℕ) : Type 0 where
  pub memory : Memory
  pub blocks : List Block
  pub list : List ℕ
  pub runs :
      (transport_shm_message_send ar p written >> receive_all ar (length ps + 1)) m
      ≡ ok (map some (ps ++ (p ∷ []))) memory
  pub arena : IsArena ar e memory blocks list []
  pub measured : memory (message_size_of p) ≡ written
  pub cut : IsCut ar memory blocks p written
  -- the bytes of the document
  pub document : (y : ℕ) → p + 16 ≤ y → y < p + 16 + written → memory y ≡ m y
  pub kept :
      (y : ℕ)
      → in_payload y (first_block ar.allocator) blocks ≡ true
      → y ≢ p
      → y ≢ last_of ps + 8
      → memory y ≡ m y

-- On an arena between two calls, with a document below 2^64 - 176 bytes that fits its block and
-- fewer than 2^32 - 1 messages: after `transport_shm_message_send` of a message that its sender has
-- written, as many calls of `transport_shm_message_receive` as there are messages return them all,
-- oldest first and the new one last, and leave the arena without messages. The new message has the
-- size of its document. Its block, still allocated, holds the header and the document and has no
-- room for another block behind them. The document's bytes are as they were, and so is whatever
-- else is allocated but for the message's size and the link to it.
pub send-receive_all :
    (ar : Arena) (e : ℕ) (m : Memory) (bs : List Block) (fs ps : List ℕ) (p written : ℕ)
    → IsArena ar e m bs fs ps
    → (draft : IsDraft ar m bs ps p) → written + 56 ≤ draft.size
    → written + 176 < 2 ^ 64
    → length ps + 1 < 2 ^ 32
    → Delivered ar e m ps p written
send-receive_all ar e m bs fs ps p written v d fits small few =
    let sent = message_send-Sent ar e m bs fs ps p written v d fits small few in
    let (m', runs, v', kept) =
      receive_all_lem ar e sent.blocks sent.list sent.memory (ps ++ (p ∷ [])) sent.arena in
    let high = held-bounds ar e m bs fs ps v p d.own in
    record {
      memory = m';
      blocks = sent.blocks;
      list = sent.list;
      runs = rw (sent.runs, sym (length-append ps (p ∷ []))) runs;
      arena = v';
      measured = kept p (omega (arith, high)) ∙ sent.measured;
      cut = IsCut-frame ar e sent.memory m' sent.blocks p written sent.cut v'.valid.tiled;
      document = λ y lo hi. kept y (omega (arith, high, lo)) ∙ sent.document y lo hi;
      kept = λ y h ne nl.
          kept y (
            omega (
              arith,
              sent.arena.placed,
              payload-bounds ar.allocator sent.memory e y (first_block ar.allocator) sent.blocks
                  sent.arena.valid.tiled h,
            ))
          ∙ sent.kept y h ne nl;
    }
