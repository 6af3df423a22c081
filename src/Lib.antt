-- ===== src/Lib.antt =====
-- libkrossbar: messages between processes, over shared memory or a Unix domain socket, with remote
-- calls on top.
--
-- The parts of the program and the files that model them:
--
-- * The allocator of a shared mapping (src/shmem/allocator.c, allocator.h, common.h). Memory.antt
--   has the mapping, a word for each field under the field's address, and commands on it, which
--   return, fail an assertion, wait for another process, or run out of fuel. Allocator/Fields.antt
--   has the structures as addresses; Allocator.antt has the functions under their names, the
--   static ones without the prefix `allocator_` (add_free_block, remove_free_block, trim_block,
--   coalesce_free_blocks and so on). Words of 64 bits wrap; the type of a block is the low half of its word,
--   and the word of a futex or of the count of messages stands for that field's 32 bits alone,
--   without what lies behind them in memory. A process runs alone: `allocator_lock` waits for good when the lock is taken. The loops
--   over the free list run on fuel, and a fuel above the list's length is enough, which the
--   theorems show since they say what is returned. Allocator/Layout.antt says how blocks fill the
--   region, Allocator/FreeList.antt how the free list leads through it, Allocator/Validity.antt
--   states the invariant. Detach, Attach, Split, Merge, Coalesce and Neighbours follow one step
--   each of the code; Create, Requests, Release and Trim are about the four public operations.
--   Payload is about the words that belong to the owners of blocks, Released about releases
--   whatever stands around, Bounds about where requests are served, Fuel and Answers show that
--   fuel for as many steps as the region's end is high is enough, and Runs has runs of operations
--   in any order.
-- * The transport over shared memory and its event manager (src/shmem/transport_shm.c,
--   event_manager_shm.c, with their headers). Shm.antt has the functions on one arena, which
--   stands in the same memory as its allocator; what `transport_shm_message_send` and
--   `transport_shm_message_receive` do between lock and unlock are append_message and
--   take_message, and what `transport_shm_create_mapping` and `transport_shm_init` write are
--   create_mapping and init_write_arena. Shm/Queue.antt says how the offsets lead through the
--   messages, Shm/Blocks.antt what their blocks hold; Mapping, Drafts, Send, Receive and Region are
--   about a new arena, a new message, its send, its receipt and its release, Shm/Delivery.antt about messages from the sender to the
--   receiver. Shm/Events.antt has the event manager, with the requests that io_uring holds
--   counted; Cqe.antt has the results of its completions, which both event managers test.
--   Shm/Setup.antt has `transport_shm_init` as a whole, `transport_shm_create_mapping` and
--   `transport_shm_destroy`, with `allocator_attach` and `allocator_destroy`: what the system
--   answers is an argument, and what is given back to it is the result. Setup/Failure.antt and
--   Setup/Lifetime.antt are about a setup that fails and one that does not.
-- * The lock of arenas and allocators between processes (the functions `arena_lock` and
--   `allocator_lock`). Lock.antt has the steps of any number of processes, which sleep and are woken;
--   Lock/Exclusion.antt is about who has the lock, Lock/Live.antt about what keeps a sleeper from
--   being forgotten, Lock/Progress.antt about how a run can go on; the sequential model of both
--   parts has the lock of one process.
-- * The transport over a Unix domain socket (src/uds/transport_uds.c, event_manager_uds.c, with
--   their headers). Uds.antt has the functions under their names. The socket is a parameter,
--   Uds/SocketApi.antt, with what `send` and `recv` promise; the requests that io_uring holds are
--   counted. Uds/Header.antt is about the packed header, Uds/Stream.antt about the bytes sent,
--   Uds/Frames.antt about those received, Uds/Counts.antt about the number of messages,
--   Uds/Waiting.antt and Uds/Stalled.antt about the requests for a writeable event.
--   Uds/Sending.antt has the runs of a sender, Uds/Decoding.antt what a receiver knows of the
--   stream between two receives, Uds/Delivery.antt the runs of a receiver and how the two meet.
-- * Remote calls (src/rpc.c, rpc.h). Rpc.antt has the functions under their names; the transport's
--   writers are a parameter, and so is the hash table of uthash, in UtHash.antt. Rpc/Registry.antt
--   is about the list of its entries, Rpc/Calls.antt about calls and their responses,
--   Rpc/Runs.antt about runs of the module from `rpc_init`, in which writers are made, sent and
--   given up and messages come in, in any order. A transport's message reaches it as a value that
--   it does not look into, with the iterator on it.
-- * The reader of documents (src/document.c, include/document.h, include/value.h). Document.antt
--   has the functions under their names, on the iterator of libbson, a parameter in Bson.antt;
--   Document/Lookup.antt says what they return.
-- * The writers of documents and arrays (src/document_writer.c, array_writer.c,
--   writers_private.h). DocumentWriter.antt and DocumentWriter/Arrays.antt have the functions
--   under their names, on the writer of libbson, a parameter in Builder.antt, with what `malloc`
--   returns as an argument; DocumentWriter/Fields.antt is about documents that are written and
--   then read. DocumentWriter/Trees.antt has documents as trees and what libbson promises on
--   nested ones where its buffers have room; DocumentWriter/Nested.antt has a client that writes a
--   tree by the functions of both files, with its two children about what that leaves.
-- * Received messages (src/message.c, uds/message_uds.c, shmem/message_shm.c). Messages.antt has
--   the functions, over the state of either transport and the list of the process's objects, a
--   function pointer being a function; Messages/Lifetime.antt is about their end.
-- * Giving up a message (src/message_writer.c, uds/message_writer_uds.c,
--   shmem/message_writer_shm.c, rpc.c). Writers.antt has `message_cancel` with the functions that
--   a writer's `cancel` points to; its fuel bounds how deep calls nest, and Writers/Cancel.antt
--   shows that no fuel is enough for a writer of the RPC module.
--
-- Prelude.antt passes on the names of the libraries that all parts use, with Boolean tests and
-- lists over the native numbers. The files Tests.antt and RunTests.antt hold concrete states,
-- sockets, iterators and buffers.
--
-- Not modelled: what the kernel does with what it is asked for (memfd_create, mmap, futex and
-- io_uring calls), what `transport_uds_destroy` frees besides the data of messages,
-- `event_manager_shm_signal_new_message`, how a writer of messages is made and sent (its document
-- writer is whatever `doc_writer_from_buffer`, which has no return statement, leaves to its caller),
-- `allocator_dump`, which returns at once, the tables of functions of src/transport.h and
-- event_manager.h, whose calls are those of the two implementations, and logging.
pub mod Prelude
pub mod Memory
pub mod Cqe
pub mod Allocator
pub mod Uds
pub mod Bson
pub mod Document
pub mod Rpc
pub mod UtHash
pub mod Writers
pub mod Shm
pub mod Lock
pub mod Messages
pub mod Builder
pub mod DocumentWriter
