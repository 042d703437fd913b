-- ===== src/Node/Tests.antt =====
-- A second validator joins the committee of one; then the first leaves.
use svp_blockchain.Base.{Option, none, some, replicate, [], ◌∷◌, ◌≡◌, refl}
use svp_blockchain.Base.Words.{pos}
use svp_blockchain.Base.Bytes.{Bytes, same}
use svp_blockchain.Base.Assoc.{has, lookup}
use svp_blockchain.Core.Crypto.{PublicKey}
use svp_blockchain.Core.Tests.{test_scheme, committee, committee-IsIndexed}
use svp_blockchain.Node.RoleStore.{
  RoleStore, add_validator, delete_validator, get_validator_quota, position,
}
use svp_blockchain.Node.RoleStore.Index.{IsIndexed}
use svp_blockchain.Node.RoleStore.Members.{add_validator-IsIndexed, delete_validator-stale}

abbrev plain_key : Bytes → PublicKey
plain_key k = record { key = k; key_str = k }

abbrev pub plain : Bytes → Bytes
plain b = b

abbrev pub plain_addr : Bytes → Option Bytes
plain_addr a = some a

abbrev pair : RoleStore
pair = record {
  validator_map = (1 ∷ [], 0) ∷ (2 ∷ [], 1) ∷ [];
  validators = plain_key (1 ∷ []) ∷ plain_key (2 ∷ []) ∷ [];
  stake_quotas = 5 ∷ 6 ∷ [];
  quota_count = 11;
  window_size = pos 4;
  peers = [];
  grace_height = 0;
}

add_validator-IsIndexed_example :
    IsIndexed
      (add_validator test_scheme plain plain_addr (replicate 32 2) (3 ∷ []) (4 ∷ []) 6 committee).1
add_validator-IsIndexed_example =
    add_validator-IsIndexed test_scheme plain plain_addr (replicate 32 2) (3 ∷ []) (4 ∷ []) 6
      committee refl committee-IsIndexed

delete_validator-stale_example :
    get_validator_quota (delete_validator (1 ∷ []) pair).1 (2 ∷ []) ≡ none
unfolding same has lookup position
delete_validator-stale_example =
    delete_validator-stale pair (1 ∷ []) 0 2 [] refl refl refl refl refl
