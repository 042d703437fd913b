-- ===== src/Node/RoleStore/Index.antt =====
-- The index of a role store: which keys are validators, and where they stand.
use svp_blockchain.Base.{suc, true, List, [], ◌∷◌, length, sum, ◌≡◌, refl, arith, ap, ◌%◌, ◌^◌}
use svp_blockchain.Base.Bytes.{Bytes}
use svp_blockchain.Base.Assoc.{has}
use svp_blockchain.Base.Keys.{contains, AllDistinct}
use svp_blockchain.Core.Crypto.{PublicKey}
use svp_blockchain.Node.RoleStore.{RoleStore, is_validator}

abbrev pub validator_keys : List PublicKey → List Bytes
validator_keys [] = []
validator_keys (v ∷ rest) = v.key_str ∷ validator_keys rest

pub length-validator_keys : (vs : List PublicKey) → length (validator_keys vs) ≡ length vs
length-validator_keys [] = refl
length-validator_keys (v ∷ rest) = ap suc (length-validator_keys rest)

-- Every validator stands once, and the keys of the map are those of the validators.
pub record IsIndexed (store : RoleStore) : Type 0 where
  pub distinct : AllDistinct (validator_keys store.validators)
  pub mapped :
      (key_str : Bytes)
      → has key_str store.validator_map ≡ contains key_str (validator_keys store.validators)
  pub stakes : length store.stake_quotas ≡ length store.validators
  pub counted : store.quota_count ≡ sum store.stake_quotas % 2 ^ 64

pub is_validator-contains :
    (store : RoleStore) (key_str : Bytes)
    → IsIndexed store
    → is_validator store key_str ≡ true
    → contains key_str (validator_keys store.validators) ≡ true
unfolding is_validator
is_validator-contains store [] c h = cc
is_validator-contains store (b ∷ key_str) c h = ground (arith, c.mapped (b ∷ key_str))
