-- ===== src/Core/Transaction.antt =====
-- core/transaction.go: the fields of a transaction, its hash, its signature and their check. `sha3` is
-- `sha3.Sum256` of what is written to it.
pub mod Signed
use svp_blockchain.Base.{ℕ, not, none, some, ◌++◌}
use svp_blockchain.Base.Bytes.{Bytes, same}
use svp_blockchain.Base.Words.{be_bytes}
use svp_blockchain.Core.Result.{Result, ok, err, ◌>>=◌, ◌>>◌, check, invalid_tx_hash, invalid_sig}
use svp_blockchain.Core.Crypto.{Scheme, PublicKey, sign, new_public_key, new_signature, verify}

-- `pb.Transaction`, its nonce as a word of 64 bits
pub record Transaction : Type 0 where
  pub nonce : ℕ
  pub hash : Bytes
  pub sender : Bytes
  pub code_addr : Bytes
  pub input : Bytes
  pub expiry : ℕ
  pub signature : Bytes

unfoldable pub set_nonce : ℕ → Transaction → Transaction
set_nonce val tx = record tx { nonce = val }

unfoldable pub set_code_addr : Bytes → Transaction → Transaction
set_code_addr val tx = record tx { code_addr = val }

unfoldable pub set_input : Bytes → Transaction → Transaction
set_input val tx = record tx { input = val }

unfoldable pub set_expiry : ℕ → Transaction → Transaction
set_expiry val tx = record tx { expiry = val }

module _ (sha3 : Bytes → Bytes) where
  unfoldable pub sum_tx : Transaction → Bytes
  sum_tx tx =
      sha3 (be_bytes 8 tx.nonce ++ tx.sender ++ tx.code_addr ++ tx.input ++ be_bytes 8 tx.expiry)

  module _ (scheme : Scheme) where
    -- `tx.data == nil` does not arise: `NewTransaction` sets it, and nothing unsets it.
    unfoldable pub validate_tx : Transaction → Result (Unit {0})
    unfolding sum_tx
    validate_tx tx = do
      check (same (sum_tx tx) tx.hash) invalid_tx_hash
      sig ← new_signature scheme (some (record { value = tx.signature; pub_key = tx.sender }))
      check (verify scheme sig tx.hash) invalid_sig

    unfoldable pub sign_tx : Bytes → Transaction → Transaction
    unfolding sum_tx
    sign_tx priv tx =
        let sent = record tx { sender = scheme.public priv } in
        let hash = sum_tx sent in
        record sent { hash = hash; signature = (sign scheme priv hash).sig_data.value }

-- `setData`: the sender, which must parse
unfoldable pub set_tx_data : Scheme → Transaction → Result PublicKey
set_tx_data scheme tx = new_public_key scheme tx.sender
