-- ===== src/Native/PCoin.antt =====
-- native/pcoin/pcoin.go: a coin with a minter. `parse` is the JSON decoding of the input.
pub mod Methods
pub mod Supply
use svp_blockchain.Base.{ℕ, ◌+◌, Option, none, some, not, ltb, if◌then◌else◌}
use svp_blockchain.Base.Bytes.{Bytes, Slice, contents, same, ascii}
use svp_blockchain.Base.Words.{add64, sub64}
use svp_blockchain.Execution.Prog.{
  Prog, pure, raise, ◌>>=◌, ◌>>◌, get, put, require, bad_input, method_not_found, not_minter,
  self_transfer, no_balance,
}
use svp_blockchain.Execution.Code.{own_only}
use svp_blockchain.Execution.Context.{CallContext, Chaincode, sender}
use svp_blockchain.Native.Balance.{decode_balance, encode_balance, assert_length}

pub record Input : Type 0 where
  pub method : Bytes
  pub dest : Bytes
  pub value : ℕ

abbrev pub key_minter : Bytes
key_minter = ascii "minter"

abbrev pub key_total : Bytes
key_total = ascii "total"

unfoldable pub parse_input : Option Input → Prog Input
parse_input none = raise bad_input
parse_input (some input) = pure input

unfoldable pub invoke_mint : CallContext → Input → Prog (Unit {0})
invoke_mint ctx input = do
  minter ← get key_minter
  require (same (contents minter) (contents (sender ctx))) not_minter
  total_bytes ← get key_total
  total ← decode_balance total_bytes
  balance_bytes ← get input.dest
  balance ← decode_balance balance_bytes
  put key_total (encode_balance (add64 total input.value))
  put input.dest (encode_balance (add64 balance input.value))

unfoldable pub invoke_transfer : CallContext → Input → Prog (Unit {0})
invoke_transfer ctx input = do
  require (not (same (contents (sender ctx)) input.dest)) self_transfer
  from_bytes ← get (contents (sender ctx))
  bsctx ← decode_balance from_bytes
  require (not (ltb bsctx input.value)) no_balance
  to_bytes ← get input.dest
  bdes ← decode_balance to_bytes
  put (contents (sender ctx)) (encode_balance (sub64 bsctx input.value))
  put input.dest (encode_balance (add64 bdes input.value))

unfoldable pub invoke_method : CallContext → Input → Prog (Unit {0})
invoke_method ctx input =
    if same input.method (ascii "mint")
    then invoke_mint ctx input
    else if same input.method (ascii "transfer")
    then invoke_transfer ctx input
    else raise method_not_found

unfoldable pub query_method : Input → Prog Slice
query_method input =
    if same input.method (ascii "minter")
    then get key_minter
    else if same input.method (ascii "total")
    then get key_total
    else if same input.method (ascii "balance")
    then get input.dest
    else raise method_not_found

unfoldable pub init : CallContext → Prog (Unit {0})
init ctx = put key_minter (sender ctx)

module _ (parse : Bytes → Option Input) where
  unfoldable pub invoke : CallContext → Prog (Unit {0})
  invoke ctx = do
    input ← parse_input (parse ctx.raw_input)
    assert_length input.dest 32
    invoke_method ctx input

  unfoldable pub query : CallContext → Prog Slice
  query ctx = do
    input ← parse_input (parse ctx.raw_input)
    assert_length input.dest 32
    query_method input

  abbrev pub p_coin : Chaincode
  p_coin = record {
    init = λ ctx. own_only (init ctx);
    invoke = λ ctx. own_only (invoke ctx);
    query = λ ctx. own_only (query ctx);
  }
