-- ===== src/Core/Crypto.antt =====
-- core/crypto.go. Ed25519 and base64 are library code: a `Scheme` has their functions, with the laws that
-- a signature verifies under the signer's key, that a public key has 32 bytes, and that base64 tells
-- byte strings apart.
use svp_blockchain.Base.{
  Bool, true, Option, none, some, List, [], ◌∷◌, length, ◌==◌, if◌then◌else◌, ◌≡◌,
}
use svp_blockchain.Base.Bytes.{Bytes}
use svp_blockchain.Core.Result.{Result, ok, err, ◌>>=◌, invalid_key_size, nil_sig}

pub record Scheme : Type 0 where
  pub public : Bytes → Bytes
  pub sign : Bytes → Bytes → Bytes
  pub verify : Bytes → Bytes → Bytes → Bool
  pub encode : Bytes → Bytes
  pub verify-sign : (k m : Bytes) → verify (public k) m (sign k m) ≡ true
  pub length-public : (k : Bytes) → length (public k) ≡ 32
  pub encode-injective : (a b : Bytes) → encode a ≡ encode b → a ≡ b

pub record PublicKey : Type 0 where
  pub key : Bytes
  pub key_str : Bytes

-- `pb.Signature`; a nil pointer is `none`.
pub record SigData : Type 0 where
  pub value : Bytes
  pub pub_key : Bytes

pub record Signature : Type 0 where
  pub sig_data : SigData
  pub signer : PublicKey

module _ (scheme : Scheme) where
  unfoldable pub new_public_key : Bytes → Result PublicKey
  new_public_key b =
      if length b == 32
      then ok (record { key = b; key_str = scheme.encode b })
      else err invalid_key_size

  -- A signer is its private key.
  abbrev pub public_key : Bytes → PublicKey
  public_key priv = record {
    key = scheme.public priv;
    key_str = scheme.encode (scheme.public priv);
  }

  unfoldable pub sign : Bytes → Bytes → Signature
  sign priv msg = record {
    sig_data = record { value = scheme.sign priv msg; pub_key = scheme.public priv };
    signer = public_key priv;
  }

  unfoldable pub new_signature : Option SigData → Result Signature
  new_signature none = err nil_sig
  new_signature (some d) = do k ← new_public_key d.pub_key; ok (record { sig_data = d; signer = k })

  unfoldable pub verify : Signature → Bytes → Bool
  verify sig msg = scheme.verify sig.signer.key msg sig.sig_data.value

  unfoldable pub new_sig_list : List (Option SigData) → Result (List Signature)
  new_sig_list [] = ok []
  new_sig_list (d ∷ rest) = do sig ← new_signature d; sigs ← new_sig_list rest; ok (sig ∷ sigs)
