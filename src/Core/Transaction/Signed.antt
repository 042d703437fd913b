-- ===== src/Core/Transaction/Signed.antt =====
-- Signed transactions are valid; and what the hash does not tell apart.
use mathlib.Core.List.{append_assoc}
use svp_blockchain.Base.{◌++◌, ◌≡◌, refl}
use svp_blockchain.Base.Bytes.{Bytes, same_refl}
use svp_blockchain.Core.Result.{ok}
use svp_blockchain.Core.Crypto.{Scheme, sign, new_public_key, new_signature, verify}
use svp_blockchain.Core.Transaction.{Transaction, sum_tx, validate_tx, sign_tx, set_tx_data}

module _ (sha3 : Bytes → Bytes) (scheme : Scheme) where
  -- A transaction that is signed is valid, whatever its fields, and its sender parses to the signer's key.
  pub sign_tx-valid :
      (priv : Bytes) (tx : Transaction)
      → (validate_tx sha3 scheme (sign_tx sha3 scheme priv tx) ≡ ok tt)
        × (set_tx_data scheme (sign_tx sha3 scheme priv tx)
            ≡ ok
                (record { key = scheme.public priv; key_str = scheme.encode (scheme.public priv) }))
  unfolding validate_tx sign_tx set_tx_data sign verify new_signature new_public_key
  sign_tx-valid priv tx =
      let sent = record tx { sender = scheme.public priv } in
      let hash = sum_tx sha3 sent in
      (
        rw (same_refl hash, scheme.length-public priv, scheme.verify-sign priv hash) refl,
        rw (scheme.length-public priv) refl,
      )

  -- The hash does not tell where the code address ends and the input begins: bytes that move from one to
  -- the other leave a transaction as valid, or as invalid, as before, under the same signature.
  pub validate_tx_shifted :
      (tx : Transaction) (a b c : Bytes)
      → validate_tx sha3 scheme (record tx { code_addr = a ++ b; input = c })
        ≡ validate_tx sha3 scheme (record tx { code_addr = a; input = b ++ c })
  unfolding validate_tx sum_tx
  validate_tx_shifted tx a b c = simp append_assoc
