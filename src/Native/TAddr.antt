-- ===== src/Native/TAddr.antt =====
-- native/taddr/taddr.go: the table that leads from an address of 20 bytes to one of 32, and back.
-- `parse`, `parse_init` and `to_bytes` are the JSON and base64 decodings.
pub mod RoundTrip
use svp_blockchain.Base.{
  ℕ, Option, none, some, List, [], ◌∷◌, ◌++◌, length, take, replicate, not, ◌==◌, if◌then◌else◌,
}
use svp_blockchain.Base.Bytes.{Bytes, Slice, contents, same, ascii}
use svp_blockchain.Execution.Prog.{
  Prog, pure, raise, ◌>>=◌, ◌>>◌, get, put, require, bad_input, method_not_found, not_internal,
  not_genesis, address_not_found,
}
use svp_blockchain.Execution.Context.{CallContext, sender, block_height}
use svp_blockchain.Native.Balance.{assert_length, valid_length}

pub record Input : Type 0 where
  pub method : Bytes
  pub addr : Bytes

abbrev pub suffix : Bytes
suffix = ascii "000000000000"

unfoldable pub to_addr20 : Bytes → Bytes
to_addr20 addr = take 20 addr

-- 32 zero bytes, the address copied over their start, the suffix over what follows the 20th
unfoldable pub to_addr32 : Bytes → Bytes
to_addr32 addr = take 20 (addr ++ replicate 32 0) ++ suffix

unfoldable pub decoded {ℓ} : {A : Type ℓ} → Option A → Prog A
decoded none = raise bad_input
decoded (some a) = pure a

-- the address that `storeAddr` pairs with another
unfoldable pub dest_addr : Bytes → Bytes
dest_addr addr = if length addr == 20 then to_addr32 addr else to_addr20 addr

unfoldable pub store_addr : CallContext → Input → Prog (Unit {0})
store_addr ctx input = do
  require (same [] (contents (sender ctx))) not_internal
  valid_length input.addr
  put input.addr (some (dest_addr input.addr))
  put (dest_addr input.addr) (some input.addr)

unfoldable pub query_addr : Input → Prog Slice
query_addr input = do
  valid_length input.addr
  found ← get input.addr
  require (not (length (contents found) == 0)) address_not_found
  pure found

module _ (to_bytes : Bytes → Option Bytes) where
  unfoldable pub init_values : List Bytes → Prog (Unit {0})
  init_values [] = pure tt
  init_values (v ∷ rest) = do
    addr ← decoded (to_bytes v)
    assert_length addr 32
    put addr (some (to_addr20 addr))
    put (to_addr20 addr) (some addr)
    init_values rest

  unfoldable pub init : (Bytes → Option (List Bytes)) → CallContext → Prog (Unit {0})
  init parse_init ctx = do
    require (block_height ctx == 0) not_genesis
    values ← decoded (parse_init ctx.raw_input)
    init_values values

module _ (parse : Bytes → Option Input) where
  unfoldable pub invoke : CallContext → Prog (Unit {0})
  invoke ctx = do
    input ← decoded (parse ctx.raw_input)
    if same input.method (ascii "store") then store_addr ctx input else raise method_not_found

  unfoldable pub query : CallContext → Prog Slice
  query ctx = do
    input ← decoded (parse ctx.raw_input)
    if same input.method (ascii "query") then query_addr input else raise method_not_found
