-- ===== src/Native/Kvdb.antt =====
-- native/kvdb/kvdb.go: a store that only its owner writes. `parse` is the JSON decoding of the input.
use svp_blockchain.Base.{
  Option, none, some, true, false, not, ◌||◌, ◌==◌, length, if◌then◌else◌, ◌≡◌, ◌≢◌, arith,
}
use svp_blockchain.Base.Bytes.{Bytes, Slice, contents, same, same_iff, ascii}
use svp_blockchain.Execution.Prog.{
  Prog, pure, raise, ok, ◌>>=◌, ◌>>◌, get, put, require, bad_input, method_not_found, not_owner,
  empty_key,
}
use svp_blockchain.Execution.Code.{own_only}
use svp_blockchain.Execution.Context.{CallContext, Chaincode, sender}
use svp_blockchain.Execution.Spec.{State, exec}

pub record Input : Type 0 where
  pub method : Bytes
  pub key : Bytes
  pub value : Bytes

abbrev pub key_owner : Bytes
key_owner = ascii "owner"

unfoldable pub init : CallContext → Prog (Unit {0})
init ctx = put key_owner (sender ctx)

unfoldable pub parse_input : Option Input → Prog Input
parse_input none = raise bad_input
parse_input (some input) = pure input

unfoldable pub invoke_set : CallContext → Input → Prog (Unit {0})
invoke_set ctx input = do
  owner ← get key_owner
  require (same (contents owner) (contents (sender ctx))) not_owner
  require (not (length input.key == 0 || length input.value == 0)) empty_key
  put input.key (some input.value)

unfoldable pub query_get : Input → Prog Slice
query_get input = do require (not (length input.key == 0)) empty_key; get input.key

unfoldable pub invoke_method : CallContext → Input → Prog (Unit {0})
invoke_method ctx input =
    if same input.method (ascii "set") then invoke_set ctx input else raise method_not_found

unfoldable pub query_method : Input → Prog Slice
query_method input =
    if same input.method (ascii "owner")
    then get key_owner
    else if same input.method (ascii "get")
    then query_get input
    else raise method_not_found

module _ (parse : Bytes → Option Input) where
  unfoldable pub invoke : CallContext → Prog (Unit {0})
  invoke ctx = do input ← parse_input (parse ctx.raw_input); invoke_method ctx input

  unfoldable pub query : CallContext → Prog Slice
  query ctx = do input ← parse_input (parse ctx.raw_input); query_method input

  abbrev pub kvdb : Chaincode
  kvdb = record {
    init = λ ctx. own_only (init ctx);
    invoke = λ ctx. own_only (invoke ctx);
    query = λ ctx. own_only (query ctx);
  }

  -- A caller that is not the owner changes nothing, whatever the input.
  pub invoke_by_other :
      (ctx : CallContext) (st : State)
      → same (contents (st key_owner)) (contents (sender ctx)) ≡ false
      → (exec (invoke ctx) st).1 ≡ st
  unfolding invoke exec invoke_method invoke_set parse_input
  invoke_by_other ctx st other = ground arith

-- After a set by the owner, with a key and a value that are not empty, a get of any other key returns
-- what it returned before, and a get of that key the value that was set.
pub get-set :
    (ctx : CallContext) (input other : Input) (st : State)
    → same (contents (st key_owner)) (contents (sender ctx)) ≡ true
    → length input.key ≢ 0
    → length input.value ≢ 0
    → (exec (query_get other) (exec (invoke_set ctx input) st).1).0
      ≡ (if same input.key other.key then ok (some input.value) else (exec (query_get other) st).0)
unfolding invoke_set query_get exec
get-set ctx input other st owner hk hv = ground (arith, same_iff input.key other.key)
