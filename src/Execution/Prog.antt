-- ===== src/Execution/Prog.antt =====
-- A chaincode as the calls that it makes of its `StateGetter` and `StateTracker`
-- (execution/common/interface.go, execution/common/call_context.go): what it does next may depend
-- on every value that it has read. `raise` is a returned error, or a panic, which
-- execution/tx_executer.go recovers into an error.
use svp_blockchain.Base.{Bool, true, false}
use svp_blockchain.Base.Bytes.{Bytes, Slice}

pub data Error : Type 0 where
  bad_input method_not_found not_minter not_owner not_internal self_transfer : Error
  no_balance address_length empty_key not_genesis address_not_found : Error
  out_of_range code_not_found invalid_code timeout : Error
  validator_not_found validator_repeated : Error

pub data Prog {ℓ} (A : Type ℓ) : Type ℓ where
  pure : A → Prog A
  raise : Error → Prog A
  get_state : Bytes → (Slice → Prog A) → Prog A
  set_state : Bytes → Slice → Prog A → Prog A

infixl 10 ◌>>=◌ ◌>>◌
abbrev pub ◌>>=◌ {ℓ κ} : {A : Type ℓ} {B : Type κ} → Prog A → (A → Prog B) → Prog B
pure a >>= f = f a
raise e >>= f = raise e
get_state k g >>= f = get_state k (λ v. g v >>= f)
set_state k v p >>= f = set_state k v (p >>= f)

abbrev pub ◌>>◌ {ℓ κ} : {A : Type ℓ} {B : Type κ} → Prog A → Prog B → Prog B
p >> q = p >>= λ _. q

-- `ctx.GetState(key)` and `ctx.SetState(key, value)` as actions
abbrev pub get : Bytes → Prog Slice
get k = get_state k pure

abbrev pub put : Bytes → Slice → Prog (Unit {0})
put k v = set_state k v (pure tt)

-- `if !b { return e }`
abbrev pub require : Bool → Error → Prog (Unit {0})
require true e = pure tt
require false e = raise e

pub data Outcome {ℓ} (A : Type ℓ) : Type ℓ where
  ok : A → Outcome A
  err : Error → Outcome A
