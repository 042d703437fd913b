-- ===== src/Core/Result.antt =====
-- The errors of core/, and `error` results. `panics` is an index out of range.
use svp_blockchain.Base.{Bool, true, false}

pub data Error : Type 0 where
  invalid_key_size nil_qc nil_sig not_enough_sig duplicate_sig invalid_sig : Error
  invalid_validator invalid_block_hash invalid_tx_hash nil_block nil_vote panics : Error

-- What a Go function returns that ends in `error`
pub data Result {ℓ} (T : Type ℓ) : Type ℓ where
  err : Error → Result T
  ok : T → Result T

infixl 10 ◌>>=◌
-- `if err != nil { return err }`, and on with the value
abbrev pub ◌>>=◌ {ℓ κ} : {T : Type ℓ} {U : Type κ} → Result T → (T → Result U) → Result U
err failure >>= rest = err failure
ok value >>= rest = rest value

infixl 10 ◌>>◌
abbrev pub ◌>>◌ {ℓ} : {U : Type ℓ} → Result (Unit {0}) → Result U → Result U
err failure >> rest = err failure
ok done >> rest = rest

-- `if !b { return e }`
abbrev pub check : Bool → Error → Result (Unit {0})
check b e = elim b [ true ↦ ok tt | false ↦ err e ]
