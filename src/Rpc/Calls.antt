-- ===== src/Rpc/Calls.antt =====
-- Calls, subscriptions and their responses (src/rpc.c).
use libkrossbar.Prelude.{
  ℕ, ◌+◌, ◌%◌, ◌^◌, ◌<◌, ◌≡◌, ◌≢◌, refl, sym, ap, subst, Bool, true, Option, none, some, List, [],
  ◌∷◌, ◌==◌, if◌then◌else◌, arith, Bool-cases, inl, inr,
}
use libkrossbar.UtHash.{UtHash, without}
use libkrossbar.Rpc.{
  call, response, Callback, CallEntry, call_id, Rpc, RpcWriter, type_code, call_entry,
  rpc_message_send, answered, dispatch, called, nothing, next_id, rpc_call,
  rpc_wrap_transport_message,
}
use libkrossbar.Rpc.Registry.{IsAbsent, IsDistinct, del-IsDistinct, find_deleted, find_kept}

-- The registered ids lie below a number.
abbrev pub AreBelow : ℕ → List CallEntry → Type 0
AreBelow n [] = Unit
AreBelow n (e ∷ es) = (e.id < n) × AreBelow n es

below-suc : (n : ℕ) (es : List CallEntry) → AreBelow n es → AreBelow (n + 1) es
below-suc n [] h = h
below-suc n (e ∷ es) h = (omega (arith, h.0), below-suc n es h.1)

below-IsAbsent : (n : ℕ) (es : List CallEntry) → AreBelow n es → IsAbsent n es
below-IsAbsent n [] h = h
below-IsAbsent n (e ∷ es) h = (λ same. absurd (omega (arith, h.0, same)), below-IsAbsent n es h.1)

below-del : (n id : ℕ) (es : List CallEntry) → AreBelow n es → AreBelow n (without call_id id es)
below-del n id [] h = h
below-del n id (e ∷ es) h = elim (Bool-cases (e.id == id)) [
  | inl same ↦ rw same h.1
  | inr other ↦ rw other (h.0, below-del n id es h.1)
]

writer_id : {Writer : Type 0} → ℕ → Option (RpcWriter Writer) → ℕ
writer_id n none = n
writer_id n (some w) = w.id

module _ (h : UtHash CallEntry call_id) where
  -- The registered ids are distinct and lie below the next one.
  pub record IsFresh (rpc : Rpc h.Table) : Type 0 where
    pub below : AreBelow rpc.id_counter (h.entries rpc.entries)
    pub distinct : IsDistinct (h.entries rpc.entries)

  -- When nothing is registered under the low 32 bits of its id: a response to a message that was
  -- just sent, dispatched with the id and the type that were read, calls that message's callback. A
  -- call is then forgotten: the registry's entries are those of before the call was sent. The entry
  -- of another message stays.
  pub send-dispatch :
      {Writer Message : Type 0} (rpc : Rpc h.Table) (w : RpcWriter Writer) (m : Message)
      (allocated : Bool)
      → h.find (w.id % 2 ^ 32) rpc.entries ≡ none
      → let rpc' = (rpc_message_send h rpc w 0).1 in
        let (outcome, after) = dispatch h rpc' m w.id (type_code response) allocated in
        (outcome ≡ called w.to)
        × (h.entries after.entries ≡ (
            if type_code w.type == type_code call
            then h.entries rpc.entries
            else call_entry w ∷ h.entries rpc.entries))
  unfolding rpc_message_send dispatch answered call_entry type_code
  send-dispatch rpc w m allocated unused =
      let same : (w.id % 2 ^ 32 == w.id % 2 ^ 32) ≡ true = ground arith in
      let found : h.find (w.id % 2 ^ 32) (h.add (call_entry w) rpc.entries) ≡ some (call_entry w) =
        rw (h.find_entries, h.add_entries, same) refl in
      rw found (elim (Bool-cases (type_code w.type == type_code call)) [
        | inl one ↦ rw one (refl, rw (h.del_entries, h.add_entries, same) refl)
        | inr kept ↦ rw kept (refl, h.add_entries (call_entry w) rpc.entries)
      ])

  -- The response to a call is delivered once: a second response with its id calls nothing and
  -- changes nothing, as long as the registered ids are distinct.
  pub dispatch-once :
      {Message : Type 0} (rpc : Rpc h.Table) (m m2 : Message) (id : ℕ) (entry : CallEntry)
      (allocated : Bool)
      → IsDistinct (h.entries rpc.entries)
      → h.find (id % 2 ^ 32) rpc.entries ≡ some entry
      → entry.type ≡ call
      → let (first, rpc') = dispatch h rpc m id (type_code response) allocated in
        (first ≡ called entry.to)
        × (dispatch h rpc' m2 id (type_code response) allocated ≡ (nothing, rpc'))
  unfolding dispatch answered type_code
  dispatch-once rpc m m2 id entry allocated d found is_call =
      let gone : h.find (id % 2 ^ 32) (h.del (id % 2 ^ 32) rpc.entries) ≡ none =
        rw (h.find_entries, h.del_entries) (find_deleted (id % 2 ^ 32) (h.entries rpc.entries) d) in
      rw (found, is_call) (refl, rw gone refl)

  answered_other :
      (Message : Type 0) (id k : ℕ) (o : Option CallEntry) (rpc : Rpc h.Table)
      → id % 2 ^ 32 ≢ k % 2 ^ 32
      → h.find (k % 2 ^ 32) (answered h {Message = Message} id o rpc).1.entries
        ≡ h.find (k % 2 ^ 32) rpc.entries
  unfolding answered
  answered_other Message id k none rpc n = refl
  answered_other Message id k (some e) rpc n =
      elim (Bool-cases (type_code e.type == type_code call)) [
        | inl one ↦ rw one (
            rw (h.find_entries, h.del_entries, h.find_entries)
              (find_kept (id % 2 ^ 32) (k % 2 ^ 32) (h.entries rpc.entries) n))
        | inr kept ↦ rw kept refl
      ]

  -- Whatever message comes in, the entries of other ids stay: an entry is found afterwards as it
  -- was before when its id differs from the message's in the low 32 bits.
  pub dispatch-other :
      {Message : Type 0} (rpc : Rpc h.Table) (m : Message) (id type k : ℕ) (allocated : Bool)
      → id % 2 ^ 32 ≢ k % 2 ^ 32
      → h.find (k % 2 ^ 32) (dispatch h rpc m id type allocated).1.entries
        ≡ h.find (k % 2 ^ 32) rpc.entries
  unfolding dispatch
  dispatch-other rpc m id type k allocated n = elim (Bool-cases (type == type_code response)) [
    | inl answer ↦ rw answer (answered_other _ id k (h.find (id % 2 ^ 32) rpc.entries) rpc n)
    | inr new ↦ elim (Bool-cases allocated) [
      | inl made ↦ rw (new, made) refl
      | inr failed ↦ rw (new, failed) refl
    ]
  ]

  -- A call that is made and sent keeps the registered ids distinct and below the next one, as long as
  -- the ids fit the 32 bits of the registry.
  call-IsFresh :
      {Writer : Type 0} (write_header : ℕ → ℕ → Writer → Writer) (rpc : Rpc h.Table) (w : Writer)
      (to : Callback) (sent : RpcWriter Writer)
      → IsFresh rpc
      → rpc.id_counter + 1 < 2 ^ 32
      → (rpc_call write_header rpc (some w) to true).0 ≡ some sent
      → IsFresh (rpc_message_send h (rpc_call write_header rpc (some w) to true).1 sent 0).1
  unfolding rpc_call rpc_wrap_transport_message next_id rpc_message_send call_entry writer_id
  call-IsFresh write_header rpc w to sent f b e =
      let at : sent.id % 2 ^ 32 ≡ rpc.id_counter = omega (arith, ap (writer_id rpc.id_counter) e) in
      let next : (rpc.id_counter + 1) % 2 ^ 64 ≡ rpc.id_counter + 1 = omega arith in
      record {
        below =
            rw (h.add_entries, next)
              (
                omega (arith, at),
                subst (λ n. AreBelow n (h.entries rpc.entries)) (sym next)
                    (below-suc rpc.id_counter (h.entries rpc.entries) f.below),
              );
        distinct =
            rw h.add_entries
              (rw at (below-IsAbsent rpc.id_counter (h.entries rpc.entries) f.below), f.distinct);
      }

  answered-IsFresh :
      (Message : Type 0) (id : ℕ) (o : Option CallEntry) (rpc : Rpc h.Table)
      → IsFresh rpc
      → IsFresh (answered h {Message = Message} id o rpc).1
  unfolding answered
  answered-IsFresh Message id none rpc f = f
  answered-IsFresh Message id (some e) rpc f =
      elim (Bool-cases (type_code e.type == type_code call)) [
        | inl one ↦ rw one (record {
          below =
              rw h.del_entries
                (below-del rpc.id_counter (id % 2 ^ 32) (h.entries rpc.entries) f.below);
          distinct =
              rw h.del_entries (del-IsDistinct (id % 2 ^ 32) (h.entries rpc.entries) f.distinct);
        })
        | inr kept ↦ rw kept f
      ]

  -- Every incoming message keeps the registered ids distinct and below the next one.
  dispatch-IsFresh :
      {Message : Type 0} (rpc : Rpc h.Table) (m : Message) (id type : ℕ) (allocated : Bool)
      → IsFresh rpc
      → IsFresh (dispatch h rpc m id type allocated).1
  unfolding dispatch
  dispatch-IsFresh rpc m id type allocated f = elim (Bool-cases (type == type_code response)) [
    | inl answer ↦ rw answer (answered-IsFresh _ id (h.find (id % 2 ^ 32) rpc.entries) rpc f)
    | inr new ↦ elim (Bool-cases allocated) [
      | inl made ↦ rw (new, made) f
      | inr failed ↦ rw (new, failed) f
    ]
  ]
