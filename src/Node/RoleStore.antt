-- ===== src/Node/RoleStore.antt =====
-- node/role_store.go. The parsing of multiaddresses is library code (`parse_addr`), and the peer store of
-- the p2p host is not followed.
pub mod Index
pub mod Members
use svp_blockchain.Base.{
  ℕ, suc, ◌+◌, ◌*◌, ◌/◌, ◌-◌, ◌<◌, Bool, true, false, Option, none, some, List, [], ◌∷◌, ◌++◌,
  length, get_elem?, ◌==◌, ltb, if◌then◌else◌,
}
use svp_blockchain.Base.Bytes.{Bytes, same}
use svp_blockchain.Base.Assoc.{Assoc, lookup, insert, has, delete}
use svp_blockchain.Base.Words.{ℤ, add64, sub64}
use svp_blockchain.Core.Result.{Result, ok, err}
use svp_blockchain.Core.Crypto.{Scheme, PublicKey, new_public_key}

pub record Peer : Type 0 where
  pub pub_key : PublicKey
  pub point_addr : Bytes
  pub topic_addr : Bytes

pub record RoleStore : Type 0 where
  pub validator_map : Assoc ℕ
  pub validators : List PublicKey
  pub stake_quotas : List ℕ
  pub quota_count : ℕ
  pub window_size : ℤ
  pub peers : List Peer
  pub grace_height : ℕ

abbrev pub min_grace_height : ℕ
min_grace_height = 4

-- `int(math.Ceil(float64(2*n+1) / 3))`, which is exact below 2^50 validators
unfoldable pub majority_count : ℕ → ℕ
majority_count n = (2 * n + 1 + 2) / 3

unfoldable pub validator_count : RoleStore → ℕ
validator_count store = length store.validators

unfoldable pub majority_validator_count : RoleStore → ℕ
unfolding majority_count
majority_validator_count store = majority_count (length store.validators)

unfoldable pub majority_quota_count : RoleStore → ℕ
majority_quota_count store = add64 store.quota_count 1 / 2

unfoldable pub is_validator : RoleStore → Bytes → Bool
is_validator store [] = false
is_validator store (b ∷ key_str) = has (b ∷ key_str) store.validator_map

unfoldable pub get_validator : RoleStore → ℕ → Option PublicKey
get_validator store i = get_elem? store.validators i

-- a missing key of a Go map reads as 0
abbrev pub or_zero : Option ℕ → ℕ
or_zero none = 0
or_zero (some i) = i

unfoldable pub get_validator_index : RoleStore → Bytes → ℕ
get_validator_index store [] = 0
get_validator_index store (b ∷ key_str) = or_zero (lookup (b ∷ key_str) store.validator_map)

-- `none` is an index out of range, which panics.
unfoldable pub get_validator_quota : RoleStore → Bytes → Option ℕ
get_validator_quota store [] = some 0
get_validator_quota store (b ∷ key_str) =
    get_elem? store.stake_quotas (get_validator_index store (b ∷ key_str))

unfoldable pub dec_and_get_grace : RoleStore → ℕ × RoleStore
dec_and_get_grace store =
    if ltb 0 store.grace_height
    then (store.grace_height - 1, record store { grace_height = store.grace_height - 1 })
    else (store.grace_height, store)

unfoldable pub set_window_size : ℤ → RoleStore → RoleStore
set_window_size size store = record store { window_size = size }

unfoldable pub get_window_size : RoleStore → ℤ
get_window_size store = store.window_size

-- the addresses of the first peer with the key, or two empty strings
unfoldable pub find_addr : Bytes → List Peer → Bytes × Bytes
find_addr key_str [] = ([], [])
find_addr key_str (p ∷ rest) =
    let later = find_addr key_str rest in
    if same p.pub_key.key_str key_str then (p.point_addr, p.topic_addr) else later

unfoldable pub get_validator_addr : RoleStore → Bytes → Bytes × Bytes
unfolding find_addr
get_validator_addr store key_str = find_addr key_str store.peers

pub data Error : Type 0 where
  validator_not_found validator_repeated bad_address : Error
  -- an index out of range, and the end of the process by `Fatalw`
  panics process_ends : Error

-- the position of a key among the validators
unfoldable pub position : Bytes → List PublicKey → Option ℕ
position key_str [] = none
position key_str (v ∷ rest) =
    let later = position key_str rest in
    if same v.key_str key_str then some 0 else elim later [ none ↦ none | some i ↦ some (suc i) ]

-- `append(s[:i], s[i+1:]...)`
unfoldable pub remove_at {ℓ} : {A : Type ℓ} → ℕ → List A → List A
remove_at i [] = []
remove_at ℕ.zero (x ∷ xs) = xs
remove_at (suc i) (x ∷ xs) = x ∷ remove_at i xs

unfoldable pub remove_peer : Bytes → List Peer → List Peer
remove_peer key_str [] = []
remove_peer key_str (p ∷ rest) =
    if same p.pub_key.key_str key_str then rest else p ∷ remove_peer key_str rest

-- the first loop of `DeleteValidator`, with the index that it stops at; `none` is a stake out of range.
unfoldable pub delete_at : Bytes → Option ℕ → RoleStore → Option RoleStore
delete_at key_str none store = some store
delete_at key_str (some i) store = elim (get_elem? store.stake_quotas i) [
  | none ↦ none
  | some quota ↦ some (record store {
    quota_count = sub64 store.quota_count quota;
    validators = remove_at i store.validators;
    stake_quotas = remove_at i store.stake_quotas;
    validator_map = delete key_str store.validator_map;
  })
]

unfoldable pub delete_validator : Bytes → RoleStore → Option Error × RoleStore
unfolding delete_at remove_peer
delete_validator key_str store =
    if has key_str store.validator_map
    then elim (delete_at key_str (position key_str store.validators) store) [
      | none ↦ (some panics, store)
      | some left ↦ (none, record left { peers = remove_peer key_str store.peers })
    ]
    else (some validator_not_found, store)

abbrev pub or_end : Result PublicKey → Option PublicKey
or_end (err e) = none
or_end (ok key) = some key

-- `decode` gives the bytes that base64 decoding returns beside its error, which the code overwrites.
module _ (scheme : Scheme) (decode : Bytes → Bytes) (parse_addr : Bytes → Option Bytes) where
  -- `StringToPubKey`; without a key the process ends.
  unfoldable pub string_to_pub_key : Bytes → Option PublicKey
  unfolding new_public_key
  string_to_pub_key v = or_end (new_public_key scheme (decode v))

  -- the fields that `AddValidator` has written by the time that it parses the addresses
  unfoldable pub enter : Bytes → PublicKey → ℕ → RoleStore → RoleStore
  enter key_str pub_key quota store = record store {
    validator_map = insert key_str (length store.validators) store.validator_map;
    validators = store.validators ++ pub_key ∷ [];
    stake_quotas = store.stake_quotas ++ quota ∷ [];
    quota_count = add64 store.quota_count quota;
  }

  unfoldable pub add_peer :
      PublicKey → Option Bytes → Option Bytes → RoleStore → Option Error × RoleStore
  add_peer pub_key none topic store = (some bad_address, store)
  add_peer pub_key (some point) none store = (some bad_address, store)
  add_peer pub_key (some point) (some topic) store = (
    none,
    record store {
      peers =
          store.peers
          ++ (record { pub_key = pub_key; point_addr = point; topic_addr = topic }) ∷ [];
      grace_height = min_grace_height;
    },
  )

  unfoldable pub add_validator : Bytes → Bytes → Bytes → ℕ → RoleStore → Option Error × RoleStore
  unfolding string_to_pub_key enter add_peer
  add_validator key_str point topic quota store =
      if has key_str store.validator_map
      then (some validator_repeated, store)
      else elim (string_to_pub_key key_str) [
        | none ↦ (some process_ends, store)
        | some pub_key ↦
            add_peer pub_key (parse_addr point) (parse_addr topic)
              (enter key_str pub_key quota store)
      ]
