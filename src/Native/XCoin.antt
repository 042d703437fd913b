-- ===== src/Native/XCoin.antt =====
-- native/xcoin/xcoin.go: the coin that genesis hands out. `parse`, `parse_init` and `to_bytes` are the
-- JSON and base64 decodings; Go's map of initial values is the list of its entries.
pub mod Conservation
use svp_blockchain.Base.{ℕ, Option, none, some, List, [], ◌∷◌, not, ltb, ◌==◌, if◌then◌else◌}
use svp_blockchain.Base.Bytes.{Bytes, Slice, contents, same, ascii}
use svp_blockchain.Base.Words.{add64, sub64}
use svp_blockchain.Execution.Prog.{
  Prog, pure, raise, ◌>>=◌, ◌>>◌, get, put, require, bad_input, method_not_found, not_internal,
  not_genesis, self_transfer, no_balance,
}
use svp_blockchain.Execution.Code.{own_only}
use svp_blockchain.Execution.Context.{CallContext, Chaincode, sender, block_height}
use svp_blockchain.Native.Balance.{decode_balance, encode_balance, assert_length}

pub record Input : Type 0 where
  pub method : Bytes
  pub dest : Bytes
  pub value : ℕ

unfoldable pub decoded {ℓ} : {A : Type ℓ} → Option A → Prog A
decoded none = raise bad_input
decoded (some a) = pure a

unfoldable pub invoke_set : CallContext → Input → Prog (Unit {0})
invoke_set ctx input = do
  require (same [] (contents (sender ctx))) not_internal
  put input.dest (encode_balance input.value)

unfoldable pub invoke_transfer : CallContext → Input → Prog (Unit {0})
invoke_transfer ctx input = do
  require (not (same (contents (sender ctx)) input.dest)) self_transfer
  from_bytes ← get (contents (sender ctx))
  bsctx ← decode_balance from_bytes
  require (not (ltb bsctx input.value)) no_balance
  to_bytes ← get input.dest
  bdes ← decode_balance to_bytes
  put (contents (sender ctx)) (encode_balance (sub64 bsctx input.value))
  put input.dest (encode_balance (add64 bdes input.value))

unfoldable pub invoke_method : CallContext → Input → Prog (Unit {0})
invoke_method ctx input =
    if same input.method (ascii "set")
    then invoke_set ctx input
    else if same input.method (ascii "transfer")
    then invoke_transfer ctx input
    else raise method_not_found

unfoldable pub query_method : Input → Prog Slice
query_method input =
    if same input.method (ascii "balance") then get input.dest else raise method_not_found

module _ (to_bytes : Bytes → Option Bytes) where
  unfoldable pub init_values : List (Bytes × ℕ) → Prog (Unit {0})
  init_values [] = pure tt
  init_values ((k, v) ∷ rest) = do
    owner ← decoded (to_bytes k)
    assert_length owner 32
    put owner (encode_balance v)
    init_values rest

  unfoldable pub init : (Bytes → Option (List (Bytes × ℕ))) → CallContext → Prog (Unit {0})
  init parse_init ctx = do
    require (block_height ctx == 0) not_genesis
    values ← decoded (parse_init ctx.raw_input)
    init_values values

module _ (parse : Bytes → Option Input) where
  unfoldable pub invoke : CallContext → Prog (Unit {0})
  invoke ctx = do
    input ← decoded (parse ctx.raw_input)
    assert_length input.dest 32
    invoke_method ctx input

  unfoldable pub query : CallContext → Prog Slice
  query ctx = do
    input ← decoded (parse ctx.raw_input)
    assert_length input.dest 32
    query_method input
