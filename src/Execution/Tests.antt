-- ===== src/Execution/Tests.antt =====
-- One deployed chaincode, the key-value store, and a transaction that sets a key of it.
use svp_blockchain.Base.{
  true, false, Option, none, some, [], ◌∷◌, ◌++◌, if◌then◌else◌, ◌≡◌, refl, ap, ◌∙◌,
}
use mathlib.Core.Path.{subst}
use mathlib.Core.Option.{some-injective}
use svp_blockchain.Base.Bytes.{Bytes, Slice, same, ascii}
use svp_blockchain.Base.Assoc.{lookup, has}
use svp_blockchain.Core.Transaction.{Transaction}
use svp_blockchain.Execution.Prog.{Prog, ◌>>=◌, get, put, not_owner}
use svp_blockchain.Execution.Tracker.{Tracker, get_state, merge}
use svp_blockchain.Execution.Tracker.Laws.{get_state-merge}
use svp_blockchain.Execution.Context.{Chaincode, CodeInfo, sender}
use svp_blockchain.Execution.Registry.{
  Codec, CodeRegistry, code_registry_addr, get_instance, get_code_info,
}
use svp_blockchain.Execution.Run.{run, on_child}
use svp_blockchain.Execution.Run.Child.{run-on_child, handed_back}
use svp_blockchain.Execution.Spec.{State, exec, view, run-exec}
use svp_blockchain.Execution.TxExecutor.{
  make_call_context, execute_invoke, by_code_addr, execute_chaincode,
}
use svp_blockchain.Execution.Code.{own_only, on_trackers}
use svp_blockchain.Execution.TxExecutor.Handed.{Registered, starts_with}
use svp_blockchain.Execution.TxExecutor.Atomic.{
  FailBefore, own_only-FailsBefore, execute_chaincode_atomic,
}
use svp_blockchain.Execution.TxExecutor.Isolation.{
  InvokesWithin, own_only-WritesWithin, execute_invoke_isolated,
}
use svp_blockchain.Native.Kvdb

abbrev empty_store : Bytes → Slice
empty_store key = none

abbrev copy : Prog (Unit {0})
copy = do v ← get (1 ∷ []); put (2 ∷ []) v

abbrev child : Tracker
child = record {
  key_prefix = 9 ∷ [];
  track_dep = true;
  dependencies = [];
  changes = (9 ∷ 1 ∷ [], some (7 ∷ [])) ∷ [];
}

abbrev root : Tracker
root = record { key_prefix = []; track_dep = false; dependencies = []; changes = [] }

run-exec_example :
    ((run empty_store copy (child ∷ root ∷ [])).0
      ≡ (exec copy (view empty_store (child ∷ root ∷ []))).0)
    × (view empty_store (run empty_store copy (child ∷ root ∷ [])).1
        ≡ (exec copy (view empty_store (child ∷ root ∷ []))).1)
run-exec_example = run-exec empty_store copy child (root ∷ [])

run-on_child_example :
    run empty_store (on_child child.key_prefix child.changes copy) (root ∷ [])
    ≡ handed_back (run empty_store copy (child ∷ root ∷ []))
run-on_child_example = run-on_child empty_store copy child (root ∷ [])

get_state-merge_example :
    (get_state empty_store (merge root child ∷ []) (9 ∷ 1 ∷ [])).0
    ≡ (get_state empty_store (child ∷ root ∷ []) (1 ∷ [])).0
get_state-merge_example =
    get_state-merge empty_store [] root child (1 ∷ []) (unfold has in (refl, tt))

abbrev decode_info : Slice → Option CodeInfo
decode_info none = none
decode_info (some []) = none
decode_info (some (d ∷ id)) = some (record { driver_type = d; code_id = id })

abbrev plain_codec : Codec
plain_codec = record {
  marshal_info = λ i. i.driver_type ∷ i.code_id;
  unmarshal_info = decode_info;
  unmarshal_deployment = λ b. none;
  unmarshal-marshal_info = λ i. refl;
}

abbrev set_one : Kvdb.Input
set_one = record { method = ascii "set"; key = 1 ∷ []; value = 7 ∷ [] }

abbrev only_kvdb : CodeRegistry
only_kvdb d = some (λ id. some (Kvdb.kvdb (λ b. some set_one)))

only_kvdb-Registered :
    (P : Chaincode → Type 0) → P (Kvdb.kvdb (λ b. some set_one)) → Registered only_kvdb P
only_kvdb-Registered P h d driver id cc e g =
    let code = Kvdb.kvdb (λ b. some set_one) in
    let given : some code ≡ driver id = ap (λ f. f id) (some-injective (λ i. some code) driver e) in
    subst P (some-injective code cc (given ∙ g)) h

abbrev tx : Transaction
tx = record {
  nonce = 0;
  hash = 4 ∷ [];
  sender = 8 ∷ [];
  code_addr = 9 ∷ [];
  input = [];
  expiry = 0;
  signature = [];
}

-- The code is registered, and nobody owns its store.
abbrev deployed : State
deployed key = if same key (code_registry_addr ++ 9 ∷ []) then some (0 ∷ []) else none

-- The sender owns it.
abbrev owned : State
owned key = if same key (9 ∷ ascii "owner") then some (8 ∷ []) else deployed key

execute_chaincode_atomic_example :
    (exec (execute_chaincode plain_codec only_kvdb 3 tx) deployed).1 ≡ deployed
unfolding exec execute_chaincode by_code_addr execute_invoke on_child on_trackers own_only
    get_instance get_code_info same lookup sender make_call_context Kvdb.invoke Kvdb.parse_input
    Kvdb.invoke_method Kvdb.invoke_set
execute_chaincode_atomic_example =
    execute_chaincode_atomic plain_codec only_kvdb 3 tx
      (only_kvdb-Registered FailBefore (λ ctx. (
        own_only-FailsBefore (Kvdb.init ctx),
        own_only-FailsBefore (Kvdb.invoke (λ b. some set_one) ctx),
      )))
      deployed not_owner refl

execute_invoke_isolated_example :
    (exec (execute_invoke plain_codec only_kvdb 3 tx) owned).1 (5 ∷ []) ≡ none
unfolding same starts_with
execute_invoke_isolated_example =
    execute_invoke_isolated plain_codec only_kvdb 3 tx (λ key. false) owned (5 ∷ [])
      (only_kvdb-Registered (InvokesWithin (λ key. false))
        (λ ctx. own_only-WritesWithin (λ key. false) (Kvdb.invoke (λ b. some set_one) ctx)))
      refl refl
