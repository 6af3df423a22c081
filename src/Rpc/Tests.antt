-- ===== src/Rpc/Tests.antt =====
-- A registry for the functions of src/rpc.c with a call and a subscription.
use libkrossbar.Prelude.{ℕ, ◌≤◌, ◌≡◌, refl, true, some, List, [], ◌∷◌, arith, ◌==◌, if◌then◌else◌}
use libkrossbar.UtHash.{UtHash, lookup, without}
use libkrossbar.Rpc.{
  call, subscription, response, Callback, CallEntry, call_id, call_entry, Rpc, RpcWriter, type_code,
  rpc_message_send, dispatch, called, nothing, rpc_call, rpc_wrap_transport_message,
  rpc_write_message_header, next_id, rpc_init, answered,
}
use libkrossbar.Rpc.Runs.{Session, Run, start, calls_made, sends, receives, calls, Run-once}
use libkrossbar.Rpc.Calls.{IsFresh, send-dispatch, dispatch-once, dispatch-other}

abbrev on_answer : Callback
on_answer = record { callback = 4096; context = 0 }

abbrev a_call : CallEntry
a_call = record { id = 2; type = call; to = on_answer }

abbrev a_subscription : CallEntry
a_subscription = record { id = 1; type = subscription; to = on_answer }

abbrev table : UtHash CallEntry call_id
table = record {
  Table = List CallEntry;
  entries = λ t. t;
  empty = [];
  add = λ entry t. entry ∷ t;
  find = lookup call_id;
  del = without call_id;
  empty_entries = refl;
  add_entries = λ entry t. refl;
  find_entries = λ id t. refl;
  del_entries = λ id t. refl;
}

abbrev rpc : Rpc (List CallEntry)
rpc = record { entries = a_call ∷ a_subscription ∷ []; id_counter = 3 }

rpc-IsFresh : IsFresh table rpc
rpc-IsFresh = record {
  below = (omega arith, (omega arith, tt));
  distinct = ((λ e. absurd (omega (arith, e)), tt), (tt, tt));
}

-- The transport's writer is the header that was written to it.
abbrev Written : Type 0
Written = List (ℕ × ℕ)

abbrev write_header : ℕ → ℕ → Written → Written
write_header id type w = (id, type) ∷ w

abbrev next_call : RpcWriter Written
next_call = record { transport_writer = (3, 1) ∷ []; id = 3; type = call; to = on_answer }

abbrev answer : ℕ
answer = 7

abbrev late_answer : ℕ
late_answer = 8

send-dispatch_example :
    let rpc' = (rpc_message_send table rpc next_call 0).1 in
    let (outcome, after) = dispatch table rpc' answer 3 (type_code response) true in
    (outcome ≡ called on_answer)
    × (after.entries ≡ (
        if type_code call == type_code call
        then rpc.entries
        else call_entry next_call ∷ rpc.entries))
send-dispatch_example = send-dispatch table rpc next_call answer true refl

dispatch-once_example :
    let (first, rpc') = dispatch table rpc answer 2 (type_code response) true in
    (first ≡ called on_answer)
    × (dispatch table rpc' late_answer 2 (type_code response) true ≡ (nothing, rpc'))
dispatch-once_example =
    dispatch-once table rpc answer late_answer 2 a_call true rpc-IsFresh.distinct refl refl

dispatch-other_example :
    lookup call_id 1 (dispatch table rpc answer 2 3 true).1.entries ≡ lookup call_id 1 rpc.entries
dispatch-other_example = dispatch-other table rpc answer 2 3 1 true (λ e. absurd (omega (arith, e)))

made_call : (rpc_call write_header rpc (some []) on_answer true).0 ≡ some next_call
unfolding rpc_call rpc_wrap_transport_message rpc_write_message_header next_id type_code
made_call = refl

abbrev new_rpc : Rpc (List CallEntry)
new_rpc = record { entries = []; id_counter = 1 }

abbrev first_call : RpcWriter Written
first_call = record { transport_writer = (1, 1) ∷ []; id = 1; type = call; to = on_answer }

abbrev session : Rpc (List CallEntry) → Session (List CallEntry) Written
session r = record { rpc = r; drafts = [] }

-- A call is made and sent, and its response comes twice.
answered_run :
    Run table write_header ℕ
      (session new_rpc)
      (call_entry first_call ∷ [])
      (session (record { entries = []; id_counter = 2 }))
unfolding rpc_call rpc_wrap_transport_message rpc_write_message_header next_id type_code
    rpc_message_send call_entry dispatch answered
answered_run = receives late_answer 1 3 true (
    receives answer 1 3 true (
      sends (record { entries = []; id_counter = 2 }) [] [] first_call 0
        (calls_made (some []) on_answer true start (omega arith))))

new_module : rpc_init table true ≡ some new_rpc
unfolding rpc_init
new_module = refl

Run-once_example : calls 1 (call_entry first_call ∷ []) ≤ 1
Run-once_example = Run-once table write_header ℕ new_rpc new_module answered_run 1
