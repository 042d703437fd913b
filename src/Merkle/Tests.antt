-- ===== src/Merkle/Tests.antt =====
-- A tree of eight leaves with a branch factor of five, and one of three leaves with a factor of two, whose
-- hash is the length.
use mathlib.Core.List.Permᴰ as Permᴰ
use svp_blockchain.Base.{
  ℕ, zero, suc, ◌%◌, ◌<◌, ◌⊎◌, Bool, some, List, [], ◌∷◌, All, ◌≢◌, length, ◌≡◌, refl, arith,
}
use svp_blockchain.Base.Bytes.{Bytes}
use svp_blockchain.Merkle.TreeCalc.{height}
use svp_blockchain.Merkle.TreeCalc.Height.{IsLeast, height-IsLeast}
use svp_blockchain.Merkle.Position.{position_bytes, unmarshal_position}
use svp_blockchain.Merkle.Position.Codec.{unmarshal_position-position_bytes}
use svp_blockchain.Merkle.Tree.{Node, UpdateResult, update, verify}
use svp_blockchain.Merkle.Store.{MapStore, new_map_store, get_node, commit_update}
use svp_blockchain.Merkle.Tree.Spec.{row-le_iff}
use svp_blockchain.Merkle.Tree.Group.{Right}
use svp_blockchain.Merkle.Tree.Collision.{Collision}
use svp_blockchain.Merkle.Tree.Commit.{Stores, Updated, commit_update-update}
use svp_blockchain.Merkle.Tree.Verify.{Verdict, verify-Collision}

height-IsLeast_example : IsLeast 5 8 1 (height 5 8)
height-IsLeast_example = height-IsLeast 5 8 (omega arith) (omega arith)

unmarshal_position-position_bytes_example :
    unmarshal_position (position_bytes (record { level = 1; index = 300 }))
    ≡ some (record { level = 1; index = 300 })
unmarshal_position-position_bytes_example =
    unmarshal_position-position_bytes (record { level = 1; index = 300 })

abbrev short_hash : Bytes → Bytes
short_hash x = length x % 256 ∷ []

abbrev datum : ℕ → Bytes
datum i = i ∷ []

abbrev leaf_at : ℕ → Node
leaf_at i = record { position = record { level = 0; index = i }; node_data = some (i ∷ []) }

abbrev three_leaves : List Node
three_leaves = leaf_at 0 ∷ leaf_at 1 ∷ leaf_at 2 ∷ []

abbrev in_order : List Node → List Node
in_order xs = xs

empty-Stores : Stores short_hash 2 new_map_store datum 0
empty-Stores = (
  refl,
  λ h. absurd (omega (arith, h)),
  λ l i t lt.
      let none_there = (row-le_iff 2 0 l 0 (omega arith)).1 (omega arith) in
      absurd (omega (arith, lt, none_there)),
)

all_given :
    (j : ℕ) → j < 3 → All (λ x. x.position.index ≢ j) three_leaves → (j < 0) × (datum j ≡ datum j)
all_given zero lt out = absurd (out.0 refl)
all_given (suc zero) lt out = absurd (out.1.0 (omega arith))
all_given (suc (suc zero)) lt out = absurd (out.1.1.0 (omega arith))
all_given (suc (suc (suc j))) lt out = absurd (omega (arith, lt))

abbrev given_right : All (Right 0 3 datum) three_leaves
given_right =
    ((refl, (omega arith), refl), ((refl, (omega arith), refl), ((refl, (omega arith), refl), tt)))

commit_update-update_example :
    (res : UpdateResult) × (update short_hash 2 (get_node new_map_store) in_order three_leaves 3
      ≡ some res)
    × Updated short_hash 2 new_map_store datum 3 res
commit_update-update_example =
    commit_update-update short_hash 2 in_order Permᴰ.refl new_map_store datum datum 0 3
      (omega arith) (omega arith) (omega arith) empty-Stores three_leaves tt given_right all_given

-- the store after the first update of the tree
first_update :
    (res : UpdateResult) × (update short_hash 2 (get_node new_map_store) in_order three_leaves 3
      ≡ some res)
    × Updated short_hash 2 new_map_store datum 3 res
first_update =
    commit_update-update short_hash 2 in_order Permᴰ.refl new_map_store datum datum 0 3
      (omega arith) (omega arith) (omega arith) empty-Stores three_leaves tt given_right all_given

abbrev filled : MapStore
filled = commit_update new_map_store first_update.0

verify-Collision_example :
    ((answer : Bool) × (verify short_hash 2
          (get_node filled)
          in_order
          filled.tree_height
          filled.leaf_count
          (leaf_at 1 ∷ [])
        ≡ some answer)
      × Verdict datum datum 3 answer)
    ⊎ Collision short_hash
verify-Collision_example =
    verify-Collision short_hash 2 in_order Permᴰ.refl filled datum datum 3 (omega arith)
      (omega arith) first_update.2.1 (leaf_at 1 ∷ []) tt ((refl, (omega arith), refl), tt)
      (λ j lt out. refl) 1 (λ x. refl) (λ i. refl) (λ i. refl)
