-- ===== src/Native/SRole.antt =====
-- native/srole/srole.go: the chaincode by which the role store is changed. It works on the role store of the
-- process (`core.SRole`) and not on the state. `parse`, `parse_init` and `hex` are codings of the
-- input and of addresses, and base64 is that of the scheme. A key that is not one of 32 bytes ends the process.
pub mod Members
pub mod Tests
use svp_blockchain.Base.{
  ℕ, Bool, not, ◌||◌, ◌==◌, Option, none, some, List, [], ◌∷◌, length, if◌then◌else◌,
}
use svp_blockchain.Base.Bytes.{Bytes, same, ascii}
use svp_blockchain.Base.Words.{ℤ}
use svp_blockchain.Base.Keys.{contains}
use svp_blockchain.Core.Crypto.{Scheme, PublicKey}
use svp_blockchain.Node.RoleStore.{
  RoleStore, is_validator, add_validator, delete_validator, set_window_size,
}
use svp_blockchain.Node.RoleStore
use svp_blockchain.Execution.Context.{CallContext, block_height}

pub record Input : Type 0 where
  pub method : Bytes
  pub addr : Bytes
  pub quota : ℕ
  pub point : Bytes
  pub topic : Bytes

pub record Peer : Type 0 where
  pub addr : Bytes
  pub quota : ℕ
  pub point : Bytes
  pub topic : Bytes

pub record InitInput : Type 0 where
  pub size : ℤ
  pub peers : List Peer

pub data Error : Type 0 where
  not_genesis bad_input address_length method_not_found : Error
  store_error : RoleStore.Error → Error

-- an error, if any, and the role store that is left
abbrev pub Outcome : Type 0 → Type 0
Outcome E = Option E × RoleStore

abbrev pub and_then : {E : Type 0} → Outcome E → (RoleStore → Outcome E) → Outcome E
and_then (some e, store) f = (some e, store)
and_then (none, store) f = f store

abbrev pub as_error : Outcome RoleStore.Error → Outcome Error
as_error (none, store) = (none, store)
as_error (some e, store) = (some (store_error e), store)

-- the keys of the validators that the input does not list
unfoldable pub to_delete : List Bytes → List PublicKey → List Bytes
unfolding contains
to_delete key_map [] = []
to_delete key_map (v ∷ rest) =
    let later = to_delete key_map rest in
    if contains v.key_str key_map then later else v.key_str ∷ later

unfoldable pub delete_all : List Bytes → RoleStore → Outcome RoleStore.Error
unfolding delete_validator
delete_all [] store = (none, store)
delete_all (key_str ∷ rest) store =
    and_then (delete_validator key_str store) (λ t. delete_all rest t)

unfoldable pub valid_length : Bytes → Bool
valid_length addr = length addr == 20 || length addr == 32

module _ (scheme : Scheme) (hex : Bytes → Bytes) where
  unfoldable pub address_to_string : Bytes → Bytes
  address_to_string addr =
      if length addr == 20 then hex addr else if length addr == 32 then scheme.encode addr else []

  -- `keyMap`
  unfoldable pub listed : List Peer → List Bytes
  unfolding address_to_string
  listed [] = []
  listed (p ∷ rest) = address_to_string p.addr ∷ listed rest

  module _ (decode : Bytes → Bytes) (parse_addr : Bytes → Option Bytes) where
    unfoldable pub enter_peer : Peer → RoleStore → Outcome RoleStore.Error
    unfolding address_to_string is_validator add_validator
    enter_peer p store =
        if is_validator store (address_to_string p.addr)
        then (none, store)
        else add_validator scheme decode parse_addr (address_to_string p.addr) p.point p.topic
            p.quota store

    unfoldable pub enter_peers : List Peer → RoleStore → Outcome RoleStore.Error
    unfolding enter_peer
    enter_peers [] store = (none, store)
    enter_peers (p ∷ rest) store = and_then (enter_peer p store) (λ t. enter_peers rest t)

    -- `Init` from the parsed input on
    unfoldable pub init_roles : InitInput → RoleStore → Outcome RoleStore.Error
    unfolding enter_peers to_delete delete_all listed set_window_size
    init_roles input store =
        and_then (enter_peers input.peers (set_window_size input.size store))
          (λ t. delete_all (to_delete (listed input.peers) t.validators) t)

    unfoldable pub init : (Bytes → Option InitInput) → CallContext → RoleStore → Outcome Error
    unfolding block_height init_roles
    init parse_init ctx store =
        if not (block_height ctx == 0)
        then (some not_genesis, store)
        else elim (parse_init ctx.raw_input) [
          | none ↦ (some bad_input, store)
          | some input ↦ as_error (init_roles input store)
        ]

    unfoldable pub invoke_method : Input → RoleStore → Outcome Error
    unfolding valid_length address_to_string add_validator delete_validator
    invoke_method input store =
        if not (valid_length input.addr)
        then (some address_length, store)
        else if same input.method (ascii "delete")
        then as_error (delete_validator (address_to_string input.addr) store)
        else if same input.method (ascii "add")
        then as_error (
            add_validator scheme decode parse_addr (address_to_string input.addr) input.point
              input.topic input.quota store)
        else (some method_not_found, store)

    unfoldable pub invoke : (Bytes → Option Input) → CallContext → RoleStore → Outcome Error
    unfolding invoke_method
    invoke parse ctx store = elim (parse ctx.raw_input) [
      | none ↦ (some bad_input, store)
      | some input ↦ invoke_method input store
    ]

-- What a query returns
pub data Answer : Type 0 where
  refused : Error → Answer
  answered : Bytes → Answer

-- `GetGenesisFile` and `GetPeersFile` print the role store.
module _ (genesis_file peers_file : RoleStore → Bytes) where
  unfoldable pub query_method : Input → RoleStore → Answer
  query_method input store =
      if same input.method (ascii "genesis")
      then answered (genesis_file store)
      else if same input.method (ascii "peers")
      then answered (peers_file store)
      else refused method_not_found

  unfoldable pub query : (Bytes → Option Input) → CallContext → RoleStore → Answer
  unfolding query_method
  query parse ctx store = elim (parse ctx.raw_input) [
    | none ↦ refused bad_input
    | some input ↦ query_method input store
  ]
