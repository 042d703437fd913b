-- ===== src/Native/SRole/Tests.antt =====
-- At the genesis a role store of one validator is given to another.
use svp_blockchain.Base.{Option, none, some, [], ◌∷◌, replicate, ◌≡◌, refl}
use svp_blockchain.Base.Words.{pos}
use svp_blockchain.Base.Bytes.{Bytes, same}
use svp_blockchain.Base.Assoc.{has, insert, delete}
use svp_blockchain.Base.Keys.{contains}
use svp_blockchain.Core.Tests.{test_scheme, committee, committee-IsIndexed}
use svp_blockchain.Core.Crypto.{new_public_key}
use svp_blockchain.Node.Tests.{plain, plain_addr}
use svp_blockchain.Node.RoleStore.{
  string_to_pub_key, is_validator, add_validator, add_peer, enter, delete_validator, delete_at,
  position, remove_at, remove_peer, set_window_size,
}
use svp_blockchain.Execution.Context.{CallContext, block_height}
use svp_blockchain.Native.SRole.{
  InitInput, init, init_roles, enter_peers, enter_peer, to_delete, delete_all, listed,
  address_to_string,
}
use svp_blockchain.Native.SRole.Members.{init-listed}

abbrev heir : InitInput
heir = record {
  size = pos 4;
  peers = (record { addr = replicate 32 8; quota = 3; point = 5 ∷ []; topic = 6 ∷ [] }) ∷ [];
}

abbrev read_heir : Bytes → Option InitInput
read_heir raw = some heir

abbrev genesis : CallContext
genesis = record { transaction = none; raw_sender = none; raw_input = []; height = some 0 }

init_succeeds : (init test_scheme plain plain plain_addr read_heir genesis committee).0 ≡ none
unfolding string_to_pub_key new_public_key init init_roles enter_peers enter_peer to_delete
    delete_all listed address_to_string is_validator add_validator add_peer enter delete_validator
    delete_at position remove_at remove_peer set_window_size block_height has insert delete contains
    same
init_succeeds = refl

init-listed_example :
    is_validator
      (init test_scheme plain plain plain_addr read_heir genesis committee).1
      (replicate 32 8)
    ≡ contains (replicate 32 8) (listed test_scheme plain heir.peers)
unfolding listed
init-listed_example =
    init-listed test_scheme plain plain_addr plain read_heir genesis heir committee refl (refl, tt)
      committee-IsIndexed init_succeeds 8 (replicate 31 8)
