-- ===== src/Merkle/Tree.antt =====
-- The groups of merkle/types.go and the tree of merkle/tree.go. The hash of what is written and the store's
-- `GetNode` are arguments. A map of groups and the workers hand the parents back in an order of their own:
-- `schedule` stands for it.
pub mod Spec
pub mod Group
pub mod Load
pub mod Parents
pub mod Level
pub mod Update
pub mod Top
pub mod Commit
pub mod Collision
pub mod Verify
use svp_blockchain.Base.{
  not, ℕ, zero, suc, ◌+◌, ◌*◌, ◌-◌, ◌%◌, Bool, true, false, ◌&&◌, ◌||◌, Option, none, some, List,
  [], ◌∷◌, ◌++◌, length, set, replicate, ltb, ◌==◌, if◌then◌else◌,
}
use svp_blockchain.Base.Bytes.{Bytes, Slice, contents, same}
use mathlib.Core.Option
use svp_blockchain.Merkle.Position.{Position, position_bytes}
use svp_blockchain.Merkle.TreeCalc.{
  group_count, height, group_of_node, first_node_of_group, node_index_in_group,
}

pub record Node : Type 0 where
  pub position : Position
  pub node_data : Slice

-- The slots of a group of children
abbrev pub Slots : Type 0
Slots = List (Option Node)

unfoldable pub set_node : ℕ → Slots → Node → Slots
unfolding node_index_in_group
set_node bfactor slots n = set slots (node_index_in_group bfactor n.position.index) (some n)

unfoldable pub is_empty : Slots → Bool
is_empty [] = true
is_empty (none ∷ rest) = is_empty rest
is_empty (some n ∷ rest) = false

unfoldable pub write_slots : Slots → Bytes
write_slots [] = []
write_slots (none ∷ rest) = write_slots rest
write_slots (some n ∷ rest) = contents n.node_data ++ write_slots rest

-- the node that the store has at a position, if any
unfoldable pub stored : Position → Slice → Option Node
stored p none = none
stored p (some d) = some (record { position = p; node_data = some d })

module _ (get_node : Position → Slice) where
  -- `Load`, from the slot with the index `index` of its level on; the loop ends where the row ends.
  unfoldable pub load : ℕ → ℕ → ℕ → Slots → Slots
  unfolding stored
  load level row_size index [] = []
  load level row_size index (some n ∷ rest) = some n ∷ load level row_size (suc index) rest
  load level row_size index (none ∷ rest) =
      let p : Position = record { level = level; index = index } in
      let later = load level row_size (suc index) rest in
      if ltb index row_size then stored p (get_node p) ∷ later else none ∷ rest

-- `getGroupPositions`
unfoldable pub group_position : ℕ → Node → Position
unfolding group_of_node
group_position bfactor n = record {
  level = (n.position.level + 1) % 256;
  index = group_of_node bfactor n.position.index;
}

unfoldable pub is_at : Position → Position → Bool
is_at p q = same (position_bytes p) (position_bytes q)

unfoldable pub listed : Position → List Position → Bool
unfolding is_at
listed p [] = false
listed p (q ∷ rest) = is_at q p || listed p rest

-- `UniqueMap`
unfoldable pub unique : List Node → (Node → Position) → List Position
unfolding listed
unique [] f = []
unique (n ∷ rest) f = let later = unique rest f in if listed (f n) later then later else f n ∷ later

-- the nodes of the group are set, in their order
unfoldable pub set_nodes : ℕ → Position → List Node → Slots → Slots
unfolding set_node group_position is_at
set_nodes bfactor p [] slots = slots
set_nodes bfactor p (n ∷ rest) slots =
    set_nodes bfactor p rest
      (if is_at (group_position bfactor n) p then set_node bfactor slots n else slots)

module _ (hash : Bytes → Bytes) where
  -- `Sum`
  unfoldable pub sum_slots : Slots → Slice
  unfolding is_empty write_slots
  sum_slots slots = if is_empty slots then none else some (hash (write_slots slots))

module _ (hash : Bytes → Bytes) (bfactor : ℕ) (get_node : Position → Slice)
    (schedule : List Node → List Node) where
  -- One group by a worker: `SetNode`, `Load`, `MakeParent`
  unfoldable pub make_parent : ℕ → List Node → Position → Node
  unfolding sum_slots load set_nodes first_node_of_group
  make_parent row_size nodes p = record {
    position = p;
    node_data = sum_slots hash (
        load get_node ((p.level + 255) % 256) row_size (first_node_of_group bfactor p.index)
          (set_nodes bfactor p nodes (replicate bfactor none)));
  }

  unfoldable pub make_parents : ℕ → List Node → List Position → List Node
  unfolding make_parent
  make_parents row_size nodes [] = []
  make_parents row_size nodes (p ∷ rest) =
      make_parent row_size nodes p ∷ make_parents row_size nodes rest

  unfoldable pub update_one_level : List Node → ℕ → List Node
  unfolding make_parents unique group_position
  update_one_level nodes row_size =
      schedule (make_parents row_size nodes (unique nodes (group_position bfactor)))

  -- the loop of `Update`, with the branches that it appends
  unfoldable pub update_levels : ℕ → List Node → ℕ → List Node
  unfolding update_one_level
  update_levels zero nodes row_size = []
  update_levels (suc rounds) nodes row_size =
      let parents = update_one_level nodes row_size in
      parents ++ update_levels rounds parents (group_count bfactor row_size)

unfoldable pub last : List Node → Option Node
last [] = none
last (n ∷ []) = some n
last (n ∷ m ∷ rest) = last (m ∷ rest)

unfoldable pub first : List Node → Option Node
first [] = none
first (n ∷ rest) = some n

pub record UpdateResult : Type 0 where
  pub leaf_count : ℕ
  pub tree_height : ℕ
  pub leaves : List Node
  pub branches : List Node
  pub root : Node

module _ (hash : Bytes → Bytes) (bfactor : ℕ) (get_node : Position → Slice)
    (schedule : List Node → List Node) where
  -- the result for a height; `none` is an index out of range, where there are no leaves
  unfoldable pub update_to : ℕ → List Node → ℕ → Option UpdateResult
  unfolding update_levels last first
  update_to h leaves new_leaf_count =
      let branches = update_levels hash bfactor get_node schedule (h - 1) leaves new_leaf_count in
      Option.map
        (λ root. record {
          leaf_count = new_leaf_count;
          tree_height = h;
          leaves = leaves;
          branches = branches;
          root = root;
        })
        (if ltb 1 h then last branches else first leaves)

  -- `Update`; `none` is also a height beyond uint8.
  unfoldable pub update : List Node → ℕ → Option UpdateResult
  unfolding update_to
  update leaves new_leaf_count = elim (height bfactor new_leaf_count) [
    | none ↦ none
    | some h ↦ update_to h leaves new_leaf_count
  ]

-- the end of `Root`; the height less one is uint8
unfoldable pub root_node : (Position → Slice) → ℕ → Option Node
unfolding stored
root_node get_node tree_height =
    let p : Position = record { level = (tree_height + 255) % 256; index = 0 } in
    stored p (get_node p)

-- the loop of `Verify` over the leaves
unfoldable pub are_leaves : ℕ → List Node → Bool
are_leaves leaf_count [] = true
are_leaves leaf_count (n ∷ rest) =
    n.position.level == 0 && ltb n.position.index leaf_count && are_leaves leaf_count rest

unfoldable pub none_given : List Node → Bool
none_given [] = true
none_given (n ∷ rest) = false

module _ (hash : Bytes → Bytes) (bfactor : ℕ) (get_node : Position → Slice)
    (schedule : List Node → List Node) where
  -- `Verify` with the root that the store has; the outer `none` is the panic of `Update`.
  unfoldable pub verify_root : ℕ → List Node → Option Node → Option Bool
  unfolding are_leaves none_given update
  verify_root leaf_count leaves none = some false
  verify_root leaf_count leaves (some root) =
      if none_given leaves || leaf_count == 0 || not (are_leaves leaf_count leaves)
      then some false
      else Option.map (λ res. same (contents root.node_data) (contents res.root.node_data))
          (update hash bfactor get_node schedule leaves leaf_count)

  unfoldable pub verify : ℕ → ℕ → List Node → Option Bool
  unfolding verify_root root_node
  verify tree_height leaf_count leaves =
      verify_root leaf_count leaves (root_node get_node tree_height)
