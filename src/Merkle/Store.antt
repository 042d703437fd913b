-- ===== src/Merkle/Store.antt =====
-- `MapStore` of merkle/store.go. Its lock makes every operation one step.
use svp_blockchain.Base.{ℕ, Option, none, some, List, [], ◌∷◌}
use svp_blockchain.Base.Bytes.{Slice}
use svp_blockchain.Base.Assoc.{Assoc, lookup, insert}
use svp_blockchain.Merkle.Position.{Position, position_bytes}
use svp_blockchain.Merkle.Tree.{Node, UpdateResult}

pub record MapStore : Type 0 where
  pub leaf_count : ℕ
  pub tree_height : ℕ
  pub nodes : Assoc Slice

abbrev pub new_map_store : MapStore
new_map_store = record { leaf_count = 0; tree_height = 0; nodes = [] }

-- a missing key gives nil
unfoldable pub or_nil : Option Slice → Slice
or_nil none = none
or_nil (some data_here) = data_here

unfoldable pub get_node : MapStore → Position → Slice
unfolding or_nil lookup position_bytes
get_node ms p = or_nil (lookup (position_bytes p) ms.nodes)

-- the loops of `CommitUpdate`
unfoldable pub put_nodes : List Node → Assoc Slice → Assoc Slice
unfolding insert position_bytes
put_nodes [] m = m
put_nodes (n ∷ rest) m = put_nodes rest (insert (position_bytes n.position) n.node_data m)

unfoldable pub commit_update : MapStore → UpdateResult → MapStore
unfolding put_nodes
commit_update ms res = record {
  leaf_count = res.leaf_count;
  tree_height = res.tree_height;
  nodes = put_nodes res.branches (put_nodes res.leaves ms.nodes);
}
