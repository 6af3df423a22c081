-- ===== src/Shm/Tests.antt =====
-- Small arenas for the functions of src/shmem/transport_shm.c: the header stands at 968, the
-- allocator's at 1000, the first block at 1040, and the arena ends at 2000.
use libkrossbar.Prelude.{◌≡◌, refl, some, List, [], ◌∷◌, arith}
use libkrossbar.Memory.{Memory, ok, null_offset}
use libkrossbar.Allocator.Fields.{free, allocated}
use libkrossbar.Allocator.Layout.{Block, block, HasBlock}
use libkrossbar.Allocator.Tests.{zeros, words}
use libkrossbar.Shm.{Arena, transport_message_offset}
use libkrossbar.Shm.Queue.{IsArena}
use libkrossbar.Shm.Receive.{IsReceived, receive-IsReceived}
use libkrossbar.Shm.Region.{MessageReleased, release-IsArena}
use libkrossbar.Shm.Blocks.{IsDraft}
use libkrossbar.Shm.Send.{Sent, message_send-Sent}
use libkrossbar.Shm.Drafts.{Drafted, message_init-Drafted}
use libkrossbar.Shm.Delivery.{Delivered, send-receive_all}
use libkrossbar.Shm.Mapping.{arena_at, new_arena, new_arena-IsArena}

abbrev pub arena : Arena
arena = arena_at 968

abbrev pub blocks : List Block
blocks = block 144 allocated ∷ block 144 allocated ∷ block 672 free ∷ []

-- A message at 1064 in the list, and one at 1208 that is being written.
abbrev pub memory : Memory
memory = words (
    (968, 1032)
    ∷ (976, 1)
    ∷ (984, 96)
    ∷ (992, 96)
    ∷ (1008, 960)
    ∷ (1016, 672)
    ∷ (1024, 104)
    ∷ (1032, 328)
    ∷ (1040, 144)
    ∷ (1048, 1)
    ∷ (1064, 10)
    ∷ (1072, null_offset)
    ∷ (1168, 144)
    ∷ (1176, 1)
    ∷ (1184, 144)
    ∷ (1192, 1)
    ∷ (1208, 88)
    ∷ (1216, null_offset)
    ∷ (1312, 144)
    ∷ (1320, 1)
    ∷ (1328, 672)
    ∷ (1344, null_offset)
    ∷ (1984, 672)
    ∷ [])

pub memory-HasBlock :
    HasBlock arena.allocator memory 1040 (block 144 allocated)
    × HasBlock arena.allocator memory 1184 (block 144 allocated)
    × HasBlock arena.allocator memory 1328 (block 672 free)
memory-HasBlock = (
  record {
    big = omega arith;
    aligned = refl;
    size_tag = refl;
    type_tag = refl;
    footer_size = refl;
    footer_type = refl;
  },
  record {
    big = omega arith;
    aligned = refl;
    size_tag = refl;
    type_tag = refl;
    footer_size = refl;
    footer_type = refl;
  },
  record {
    big = omega arith;
    aligned = refl;
    size_tag = refl;
    type_tag = refl;
    footer_size = refl;
    footer_type = refl;
  },
)

pub memory-IsArena : IsArena arena 2000 memory blocks (1328 ∷ []) (1064 ∷ [])
memory-IsArena = record {
  placed = refl;
  region = refl;
  valid = record {
    header_pos = omega arith;
    ends = refl;
    fits = omega arith;
    tiled = (memory-HasBlock.0, (memory-HasBlock.1, (memory-HasBlock.2, refl)));
    chain = (ground arith, refl, refl, refl);
    listed = λ y. refl;
    distinct = (refl, tt);
  };
  configured = record { aligned = refl; positive = omega arith; small = omega arith };
  released = refl;
  unlocked = refl;
  counted = refl;
  bounded = omega arith;
  queued = (refl, refl);
  last = unfold transport_message_offset in refl;
  held = ((refl, refl, refl), tt);
  distinct = (refl, tt);
}

abbrev memory-IsDraft : IsDraft arena memory blocks (1064 ∷ []) 1208
memory-IsDraft = record {
  at = 1184;
  size = 144;
  before = block 144 allocated ∷ [];
  after = block 672 free ∷ [];
  payload = refl;
  whole = refl;
  stands = (memory-HasBlock.0, refl);
  own = (refl, refl, refl);
  others = ((refl, refl, refl), tt);
  fresh = refl;
}

receive-IsReceived_example : IsReceived arena 2000 memory blocks (1328 ∷ []) (1064 ∷ [])
receive-IsReceived_example =
    receive-IsReceived arena 2000 memory blocks (1328 ∷ []) (1064 ∷ []) memory-IsArena

-- The message at 1208 is released as one that was received.
release-IsArena_example :
    MessageReleased arena 2000 memory 10 1184 144
      (block 144 allocated ∷ block 144 free ∷ block 672 free ∷ [])
      (1064 ∷ [])
release-IsArena_example =
    release-IsArena arena 2000 memory (block 144 allocated ∷ []) [] 1184 144 672 free (1328 ∷ [])
      (1064 ∷ []) 10 memory-IsArena (memory-HasBlock.0, refl) ((refl, refl, refl), tt) (omega arith)

message_send-Sent_example : Sent arena 2000 memory (1064 ∷ []) 1208 20
message_send-Sent_example =
    message_send-Sent arena 2000 memory blocks (1328 ∷ []) (1064 ∷ []) 1208 20 memory-IsArena
      memory-IsDraft (omega arith) (omega arith) (omega arith)

message_init-Drafted_example : Drafted arena 2000 10 memory blocks (1064 ∷ []) 88
message_init-Drafted_example =
    message_init-Drafted arena 2000 memory blocks (1328 ∷ []) (1064 ∷ []) memory-IsArena 10 88
      (omega arith) (omega arith) 1328 refl (omega arith)

new_arena-IsArena_example :
    (m' : Memory) × (new_arena 4096 1024 100 zeros ≡ ok (some (arena_at 4096)) m')
    × IsArena (arena_at 4096) 5120 m' (block 952 free ∷ []) (4168 ∷ []) []
new_arena-IsArena_example =
    new_arena-IsArena 4096 1024 100 zeros (omega arith) (omega arith) (omega arith) (omega arith)
      (omega arith) refl

send-receive_all_example : Delivered arena 2000 memory (1064 ∷ []) 1208 20
send-receive_all_example =
    send-receive_all arena 2000 memory blocks (1328 ∷ []) (1064 ∷ []) 1208 20 memory-IsArena
      memory-IsDraft (omega arith) (omega arith) (omega arith)
