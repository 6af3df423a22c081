-- ===== src/Rpc.antt =====
-- Calls and subscriptions over a transport (src/rpc.c, src/rpc.h). The transport's writers are a
-- parameter, and so is the hash table of uthash. What the code
-- hands out - the header that it writes, the message that it sends, the callback that it calls - is
-- the result of its function.
pub mod Registry
pub mod Calls
pub mod Runs
mod Tests
use libkrossbar.Prelude.{
  ℕ, ◌+◌, ◌%◌, ◌^◌, Bool, true, false, Option, none, some, List, [], ◌∷◌, ◌==◌, if◌then◌else◌,
}
use libkrossbar.Bson.{Bson}
use libkrossbar.UtHash.{UtHash}

-- `kb_message_type_e`
pub data MessageType : Type 0 where
  message call subscription response : MessageType

-- The values of its enumerators.
pub type_code : MessageType → ℕ
type_code message = 0
type_code call = 1
type_code subscription = 2
type_code response = 3

-- A function to call and its context.
pub record Callback : Type 0 where
  pub callback : ℕ
  pub context : ℕ

-- `kb_call_entry_s`: the id is an `int`, given by its 32 bits.
pub record CallEntry : Type 0 where
  pub id : ℕ
  pub type : MessageType
  pub to : Callback

abbrev pub call_id : CallEntry → ℕ
call_id entry = entry.id

-- `kb_rpc_s`, without the transport and the logger.
pub record Rpc (Table : Type 0) : Type 0 where
  pub entries : Table
  pub id_counter : ℕ

-- `kb_rpc_message_writer_s`, over a writer of the transport.
pub record RpcWriter (Writer : Type 0) : Type 0 where
  pub transport_writer : Writer
  pub id : ℕ
  pub type : MessageType
  pub to : Callback

-- `kb_rpc_message_s`: an incoming message that is no response. Its type is an unsigned `enum`.
pub record RpcMessage (Message : Type 0) : Type 0 where
  pub message : Message
  pub id : ℕ
  pub type : ℕ

-- The id, and the module with the counter behind it.
pub next_id : {Table : Type 0} → Rpc Table → ℕ × Rpc Table
next_id rpc = (rpc.id_counter, record rpc { id_counter = (rpc.id_counter + 1) % 2 ^ 64 })

module _ {Writer : Type 0} (write_header : (id : ℕ) (type : ℕ) → Writer → Writer) where
  -- `write_header` appends the id as `id` and the type as `type` to the writer's document.
  pub rpc_write_message_header : Writer → (id : ℕ) → MessageType → Writer
  rpc_write_message_header w id type = write_header id (type_code type) w

  pub rpc_message_respond :
      {Message : Type 0} → RpcMessage Message → (made : Option Writer) → Option Writer
  rpc_message_respond m none = none
  rpc_message_respond m (some w) = some (rpc_write_message_header w m.id response)

module _ {Table Writer : Type 0} (write_header : (id : ℕ) (type : ℕ) → Writer → Writer) where
  -- `made` is what `transport_message_init` returns, with `none` for `NULL`.
  pub rpc_message : Rpc Table → (made : Option Writer) → Option Writer × Rpc Table
  rpc_message rpc none = (none, rpc)
  rpc_message rpc (some w) =
      let (id, rpc') = next_id rpc in
      (some (rpc_write_message_header write_header w id message), rpc')

  pub rpc_wrap_transport_message :
      Rpc Table
      → Option Writer
      → MessageType
      → Callback
      → (allocated : Bool) → Option (RpcWriter Writer) × Rpc Table
  rpc_wrap_transport_message rpc none type to allocated = (none, rpc)
  rpc_wrap_transport_message rpc (some w) type to allocated =
      if allocated
      then (let (id, rpc') = next_id rpc in
          (
            some (record {
              transport_writer = rpc_write_message_header write_header w id type;
              id = id;
              type = type;
              to = to;
            }),
            rpc',
          ))
      else (none, rpc)

  pub rpc_call :
      Rpc Table
      → (made : Option Writer) → Callback
      → (allocated : Bool) → Option (RpcWriter Writer) × Rpc Table
  rpc_call rpc made to allocated = rpc_wrap_transport_message rpc made call to allocated

  pub rpc_subscribe :
      Rpc Table
      → (made : Option Writer) → Callback
      → (allocated : Bool) → Option (RpcWriter Writer) × Rpc Table
  rpc_subscribe rpc made to allocated =
      rpc_wrap_transport_message rpc made subscription to allocated

-- The entry of a message that was sent: `entry->id` keeps the low 32 bits of the id.
pub call_entry : {Writer : Type 0} → RpcWriter Writer → CallEntry
call_entry w = record { id = w.id % 2 ^ 32; type = w.type; to = w.to }

-- What `rpc_handle_incoming_message` does with a message: the callback that it calls, or the message
-- that it hands to the caller, or neither.
pub data Outcome (Message : Type 0) : Type 0 where
  nothing : Outcome Message
  called : Callback → Outcome Message
  handed : RpcMessage Message → Outcome Message

-- The keys `id` and `type` of the header.
abbrev pub id_key : List ℕ
id_key = 105 ∷ 100 ∷ []

abbrev pub type_key : List ℕ
type_key = 116 ∷ 121 ∷ 112 ∷ 101 ∷ []

-- The id and the type that stand in a message's document, in this order.
pub read_id_and_type : (b : Bson) → b.Iter → Option (ℕ × ℕ)
read_id_and_type b i =
    let (id_found, i1) = b.find id_key i in
    let (type_found, i2) = b.find type_key i1 in
    if id_found
    then (if type_found then some (b.read_int64 i1, b.read_int64 i2 % 2 ^ 32) else none)
    else none

module _ (h : UtHash CallEntry call_id) where
  pub rpc_init : (allocated : Bool) → Option (Rpc h.Table)
  rpc_init allocated =
      if allocated then some (record { entries = h.empty; id_counter = 1 }) else none

  -- `result` is what the transport's `send` returns, 0 when it took the message.
  pub rpc_message_send :
      {Writer : Type 0} → Rpc h.Table → RpcWriter Writer → (result : ℕ) → ℕ × Rpc h.Table
  rpc_message_send rpc w result =
      if result == 0
      then (result, record rpc { entries = h.add (call_entry w) rpc.entries })
      else (result, rpc)

  -- A response, from the entry that was found on; the callback leaves the registry alone.
  pub answered :
      {Message : Type 0} → (id : ℕ) → Option CallEntry → Rpc h.Table → Outcome Message × Rpc h.Table
  answered id none rpc = (nothing, rpc)
  answered id (some entry) rpc = (
    called entry.to,
    (if type_code entry.type == type_code call
        then record rpc { entries = h.del (id % 2 ^ 32) rpc.entries }
        else rpc),
  )

  -- The header that was read; `allocated` tells whether `malloc` returns memory. The table compares
  -- the four bytes at `&id`, the low half of the 64-bit id.
  pub dispatch :
      {Message : Type 0}
      → Rpc h.Table
      → Message
      → (id : ℕ) → (type : ℕ) → (allocated : Bool) → Outcome Message × Rpc h.Table
  dispatch rpc m id type allocated =
      if type == type_code response
      then answered id (h.find (id % 2 ^ 32) rpc.entries) rpc
      else (if allocated
          then (handed (record { message = m; id = id; type = type }), rpc)
          else (nothing, rpc))

  pub header_dispatch :
      {Message : Type 0}
      → Rpc h.Table
      → Message
      → Option (ℕ × ℕ)
      → (allocated : Bool) → Outcome Message × Rpc h.Table
  header_dispatch rpc m none allocated = (nothing, rpc)
  header_dispatch rpc m (some (id, type)) allocated = dispatch rpc m id type allocated

  -- `iter` is what `bson_iter_init` makes of the message's document, `none` when it fails.
  pub rpc_handle_incoming_message :
      {Message : Type 0}
      → (b : Bson) → Rpc h.Table
      → Message
      → (iter : Option b.Iter) → (allocated : Bool) → Outcome Message × Rpc h.Table
  rpc_handle_incoming_message b rpc m none allocated = (nothing, rpc)
  rpc_handle_incoming_message b rpc m (some i) allocated =
      header_dispatch rpc m (read_id_and_type b i) allocated

  -- The loop of `rpc_destroy` takes the entries out one by one.
  pub destroy_loop : List CallEntry → h.Table → h.Table
  destroy_loop [] t = t
  destroy_loop (entry ∷ rest) t = destroy_loop rest (h.del entry.id t)

  -- What is left in the table when the module is freed.
  pub rpc_destroy : Rpc h.Table → List CallEntry
  rpc_destroy rpc = h.entries (destroy_loop (h.entries rpc.entries) rpc.entries)
