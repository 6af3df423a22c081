-- ===== src/Rpc/Runs.antt =====
-- Runs of the module for remote calls (src/rpc.c): writers are made, sent in any order or given up, and
-- messages come in, in any order.
use libkrossbar.Prelude.{
  ℕ, ◌+◌, ◌%◌, ◌^◌, ◌≤◌, ◌<◌, ◌≡◌, refl, sym, ap, ◌∙◌, Bool, true, false, Option, none, some, List,
  [], ◌∷◌, ◌++◌, ◌==◌, ◌&&◌, if◌then◌else◌, ltb, arith, Bool-cases, inl, inr,
}
use libkrossbar.UtHash.{UtHash, lookup, without}
use libkrossbar.Rpc.{
  MessageType, call, subscription, response, Callback, CallEntry, call_id, Rpc, RpcWriter,
  type_code, call_entry, rpc_message, rpc_message_send, rpc_init, Outcome, called, nothing, handed,
  answered, dispatch, next_id, rpc_call, rpc_subscribe, rpc_wrap_transport_message,
}

-- The module, and the writers that were made and not yet sent.
pub record Session (Table Writer : Type 0) : Type 0 where
  pub rpc : Rpc Table
  pub drafts : List (RpcWriter Writer)

-- How many of the entries are calls with an id.
abbrev pub calls : ℕ → List CallEntry → ℕ
calls k [] = 0
calls k (e ∷ es) =
    (if (e.id == k) && (type_code e.type == type_code call) then 1 else 0) + calls k es

abbrev pub entries_of : {Writer : Type 0} → List (RpcWriter Writer) → List CallEntry
entries_of [] = []
entries_of (w ∷ ws) = call_entry w ∷ entries_of ws

abbrev pub add_draft :
    {Writer : Type 0}
    → Option (RpcWriter Writer)
    → List (RpcWriter Writer)
    → List (RpcWriter Writer)
add_draft none ws = ws
add_draft (some w) ws = w ∷ ws

abbrev pub add_called : Option CallEntry → List CallEntry → List CallEntry
add_called none es = es
add_called (some e) es = e ∷ es

abbrev pub found_type : Option CallEntry → MessageType
found_type none = call
found_type (some e) = e.type

-- The call of a callback that an incoming message with the id came to, as an entry: `found` is what
-- is registered under the id. Where nothing is, a call was called.
abbrev pub call_of :
    {Message : Type 0} → (id : ℕ) → (found : Option CallEntry) → Outcome Message → Option CallEntry
call_of id found nothing = none
call_of id found (called to) = some (record { id = id % 2 ^ 32; type = found_type found; to = to })
call_of id found (handed m) = none

lookup-id :
    (id : ℕ) (es : List CallEntry) (e : CallEntry) → lookup call_id id es ≡ some e → e.id ≡ id
lookup-id id [] e found = absurd (cc)
lookup-id id (f ∷ es) e found = elim (Bool-cases (f.id == id)) [
  | inl same ↦
      let is : f ≡ e = ap (λ o. elim o [ some x ↦ x | none ↦ f ]) (rw same at found) in
      ap (λ x. x.id) (sym is) ∙ ground (arith, same)
  | inr other ↦ lookup-id id es e (rw other at found)
]

module _ {Writer : Type 0} (h : UtHash CallEntry call_id) (write_header : ℕ → ℕ → Writer → Writer)
    (Message : Type 0) where
  -- A call is registered, or not yet sent, or its callback was called, and only once.
  IsOnce : List CallEntry → Session h.Table Writer → Type 0
  IsOnce es s =
      (k : ℕ)
      → calls k es + calls k (h.entries s.rpc.entries) + calls k (entries_of s.drafts)
        ≤ (if ltb k s.rpc.id_counter then 1 else 0)

  wrap-IsOnce :
      (es : List CallEntry) (rpc : Rpc h.Table) (drafts : List (RpcWriter Writer))
      (made : Option Writer) (type : MessageType) (to : Callback) (allocated : Bool)
      → IsOnce es (record { rpc = rpc; drafts = drafts })
      → rpc.id_counter + 1 < 2 ^ 32
      → let r = rpc_wrap_transport_message write_header rpc made type to allocated in
        IsOnce es (record { rpc = r.1; drafts = add_draft r.0 drafts })
  unfolding IsOnce rpc_wrap_transport_message next_id call_entry
  wrap-IsOnce es rpc drafts none type to allocated v b k = v k
  wrap-IsOnce es rpc drafts (some w) type to false v b k = v k
  wrap-IsOnce es rpc drafts (some w) type to true v b k = ground (arith, v k)

  message-IsOnce :
      (es : List CallEntry) (rpc : Rpc h.Table) (drafts : List (RpcWriter Writer))
      (made : Option Writer)
      → IsOnce es (record { rpc = rpc; drafts = drafts })
      → rpc.id_counter + 1 < 2 ^ 32
      → IsOnce es (record { rpc = (rpc_message write_header rpc made).1; drafts = drafts })
  unfolding IsOnce rpc_message next_id
  message-IsOnce es rpc drafts none v b k = v k
  message-IsOnce es rpc drafts (some w) v b k = ground (arith, v k)

  calls-append :
      (k : ℕ) (w : RpcWriter Writer) (before after : List (RpcWriter Writer))
      → calls k (entries_of (before ++ (w ∷ after)))
        ≡ calls k (call_entry w ∷ []) + calls k (entries_of (before ++ after))
  calls-append k w [] after = omega arith
  calls-append k w (v ∷ before) after = omega (arith, calls-append k w before after)

  send-IsOnce :
      (es : List CallEntry) (rpc : Rpc h.Table) (before after : List (RpcWriter Writer))
      (w : RpcWriter Writer) (result : ℕ)
      → IsOnce es (record { rpc = rpc; drafts = before ++ (w ∷ after) })
      → IsOnce es (record { rpc = (rpc_message_send h rpc w result).1; drafts = before ++ after })
  unfolding IsOnce rpc_message_send
  send-IsOnce es rpc before after w result v k = elim (Bool-cases (result == 0)) [
    | inl taken ↦ rw (taken, h.add_entries) (omega (arith, v k, calls-append k w before after))
    | inr refused ↦ rw refused (omega (arith, v k, calls-append k w before after))
  ]

  -- Taking out the first entry with an id.
  calls-without :
      (k id : ℕ) (e : CallEntry) (es : List CallEntry)
      → lookup call_id id es ≡ some e
      → calls k es ≡ calls k (e ∷ []) + calls k (without call_id id es)
  calls-without k id e [] found = absurd (cc)
  calls-without k id e (f ∷ es) found = elim (Bool-cases (f.id == id)) [
    | inl same ↦
        let is : f ≡ e = ap (λ o. elim o [ some x ↦ x | none ↦ f ]) (rw same at found) in
        rw (same, is) (omega arith)
    | inr other ↦ rw other (omega (arith, calls-without k id e es (rw other at found)))
  ]

  answered-IsOnce :
      (id : ℕ) (o : Option CallEntry) (es : List CallEntry) (rpc : Rpc h.Table)
      (drafts : List (RpcWriter Writer))
      → h.find (id % 2 ^ 32) rpc.entries ≡ o
      → IsOnce es (record { rpc = rpc; drafts = drafts })
      → IsOnce
          (add_called (call_of id o (answered h {Message = Message} id o rpc).0) es)
          (record { rpc = (answered h {Message = Message} id o rpc).1; drafts = drafts })
  unfolding IsOnce answered
  answered-IsOnce id none es rpc drafts found v k = v k
  answered-IsOnce id (some e) es rpc drafts found v k =
      let same : e.id ≡ id % 2 ^ 32 =
        lookup-id (id % 2 ^ 32) (h.entries rpc.entries) e (rw h.find_entries at found) in
      elim (Bool-cases (type_code e.type == type_code call)) [
        | inl one ↦
            rw (one, h.del_entries)
              (ground (
                arith,
                one,
                same,
                v k,
                calls-without k (id % 2 ^ 32) e (h.entries rpc.entries)
                    (rw h.find_entries at found),
              ))
        | inr kept ↦ rw kept (ground (arith, kept, same, v k))
      ]

  dispatch-IsOnce :
      (m : Message) (id type : ℕ) (allocated : Bool) (es : List CallEntry) (rpc : Rpc h.Table)
      (drafts : List (RpcWriter Writer))
      → IsOnce es (record { rpc = rpc; drafts = drafts })
      → IsOnce
          (add_called
            (call_of id (h.find (id % 2 ^ 32) rpc.entries) (dispatch h rpc m id type allocated).0)
            es)
          (record { rpc = (dispatch h rpc m id type allocated).1; drafts = drafts })
  unfolding dispatch
  dispatch-IsOnce m id type allocated es rpc drafts v =
      elim (Bool-cases (type == type_code response)) [
        | inl answer ↦
            rw answer (answered-IsOnce id (h.find (id % 2 ^ 32) rpc.entries) es rpc drafts refl v)
        | inr new ↦ elim (Bool-cases allocated) [
          | inl made ↦ rw (new, made) v
          | inr failed ↦ rw (new, failed) v
        ]
      ]

module _ {Writer : Type 0} (h : UtHash CallEntry call_id) (write_header : ℕ → ℕ → Writer → Writer)
    (Message : Type 0) where
  -- A run, and the calls of callbacks that its dispatches come to, the latest first.
  pub data Run (s : Session h.Table Writer) : List CallEntry → Session h.Table Writer → Type 0 where
    start : Run s [] s
    calls_made :
        {u : Session h.Table Writer} {es : List CallEntry} (made : Option Writer) (to : Callback)
        (allocated : Bool)
        → Run s es u
        → u.rpc.id_counter + 1 < 2 ^ 32
        → Run s es (record {
          rpc = (rpc_call write_header u.rpc made to allocated).1;
          drafts = add_draft (rpc_call write_header u.rpc made to allocated).0 u.drafts;
        })
    subscriptions_made :
        {u : Session h.Table Writer} {es : List CallEntry} (made : Option Writer) (to : Callback)
        (allocated : Bool)
        → Run s es u
        → u.rpc.id_counter + 1 < 2 ^ 32
        → Run s es (record {
          rpc = (rpc_subscribe write_header u.rpc made to allocated).1;
          drafts = add_draft (rpc_subscribe write_header u.rpc made to allocated).0 u.drafts;
        })
    messages_made :
        {u : Session h.Table Writer} {es : List CallEntry} (made : Option Writer)
        → Run s es u
        → u.rpc.id_counter + 1 < 2 ^ 32
        → Run s es (record { rpc = (rpc_message write_header u.rpc made).1; drafts = u.drafts })
    sends :
        {es : List CallEntry} (rpc : Rpc h.Table) (before after : List (RpcWriter Writer))
        (w : RpcWriter Writer) (result : ℕ)
        → Run s es (record { rpc = rpc; drafts = before ++ (w ∷ after) })
        → Run s es (record { rpc = (rpc_message_send h rpc w result).1; drafts = before ++ after })
    receives :
        {u : Session h.Table Writer} {es : List CallEntry} (m : Message) (id type : ℕ)
        (allocated : Bool)
        → Run s es u
        → Run s
            (add_called
              (call_of id
                (h.find (id % 2 ^ 32) u.rpc.entries)
                (dispatch h u.rpc m id type allocated).0)
              es)
            (record { rpc = (dispatch h u.rpc m id type allocated).1; drafts = u.drafts })

  Run-IsOnce :
      {s t : Session h.Table Writer} {es : List CallEntry}
      → Run s es t
      → IsOnce h write_header Message [] s
      → IsOnce h write_header Message es t
  unfolding rpc_call rpc_subscribe
  Run-IsOnce start v = v
  Run-IsOnce (calls_made made to allocated run b) v =
      wrap-IsOnce h write_header Message _ _ _ made call to allocated (Run-IsOnce run v) b
  Run-IsOnce (subscriptions_made made to allocated run b) v =
      wrap-IsOnce h write_header Message _ _ _ made subscription to allocated (Run-IsOnce run v) b
  Run-IsOnce (messages_made made run b) v =
      message-IsOnce h write_header Message _ _ _ made (Run-IsOnce run v) b
  Run-IsOnce (sends rpc before after w result run) v =
      send-IsOnce h write_header Message _ rpc before after w result (Run-IsOnce run v)
  Run-IsOnce (receives m id type allocated run) v =
      dispatch-IsOnce h write_header Message m id type allocated _ _ _ (Run-IsOnce run v)

  new-IsOnce :
      (rpc : Rpc h.Table)
      → rpc_init h true ≡ some rpc
      → IsOnce h write_header Message [] (record { rpc = rpc; drafts = [] })
  unfolding IsOnce rpc_init
  new-IsOnce rpc new k = rw (sym empty, h.empty_entries) (omega arith)
    where
      empty : h.empty ≡ rpc.entries
      empty = ap (λ o. elim o [ some r ↦ r.entries | none ↦ h.empty ]) new

  -- From a new module, in every run of writers that are made, sent in any order with any result or
  -- given up, and of messages that come in, as long as ids fit 32 bits: counting what the
  -- dispatches of the run came to, the callback of a call is called at most once, whatever messages
  -- come in and however often.
  pub Run-once :
      {t : Session h.Table Writer} {es : List CallEntry} (rpc : Rpc h.Table)
      → rpc_init h true ≡ some rpc
      → Run (record { rpc = rpc; drafts = [] }) es t
      → (k : ℕ) → calls k es ≤ 1
  unfolding IsOnce
  Run-once {t} {es} rpc new run k = ground (arith, Run-IsOnce run (new-IsOnce rpc new) k)
