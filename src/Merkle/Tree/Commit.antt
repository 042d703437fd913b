-- ===== src/Merkle/Tree/Commit.antt =====
-- `Update` of merkle/tree.go with `CommitUpdate` of merkle/store.go, and `Verify`.
use mathlib.Core.List.{Permᴰ}
use mathlib.Core.Path.{subst}
use svp_blockchain.Base.{
  ℕ, zero, suc, true, false, ◌-◌, ◌^◌, ◌≤◌, ◌<◌, ◌≢◌, inl, inr, ltb, if◌then◌else◌, ◌≡◌, refl, sym,
  ap, ◌∙◌, arith, some, List, [], ◌∷◌, All,
}
use svp_blockchain.Base.Bytes.{Bytes}
use svp_blockchain.Merkle.TreeCalc.{height}
use svp_blockchain.Merkle.Tree.{Node, UpdateResult, update, update_to, update_levels, last, first}
use svp_blockchain.Merkle.Store.{MapStore, get_node, put_nodes, commit_update}
use svp_blockchain.Merkle.Tree.Spec.{row, node, InTree}
use svp_blockchain.Merkle.Tree.Group.{Right}
use svp_blockchain.Merkle.Tree.Level.{Kept}
use svp_blockchain.Merkle.Tree.Update.{
  NonEmpty, Fits, Right-Fits, Same, Built, update_levels-Built, Kept-Outside,
}
use svp_blockchain.Merkle.Tree.Parents.{All-mono}
use svp_blockchain.Merkle.Tree.Top.{put_nodes-Fits, IsTop, height-IsTop, at_height}

module _ (hash : Bytes → Bytes) (b : ℕ) where
  -- The store has the tree over the first n of the leaves.
  abbrev pub Stores : MapStore → (ℕ → Bytes) → ℕ → Type 0
  Stores ms leaf n =
      (ms.leaf_count ≡ n)
      × (0 < n → height b n ≡ some ms.tree_height)
      × ((l i : ℕ)
          → InTree b n l
          → i < row b n l
          → get_node ms (record { level = l; index = i }) ≡ some (node hash b leaf n l i))

  -- The result of `Update` has the root of the new tree, and the store after the commit has the new tree.
  abbrev pub Updated : MapStore → (ℕ → Bytes) → ℕ → UpdateResult → Type 0
  Updated ms leaf n res =
      (res.root.node_data ≡ some (node hash b leaf n (res.tree_height - 1) 0))
      × Stores (commit_update ms res) leaf n

  module _ (schedule : List Node → List Node) (perm : (xs : List Node) → Permᴰ (schedule xs) xs)
      (ms : MapStore) (old leaf : ℕ → Bytes) (m n : ℕ) (hb : 2 ≤ b) (le : m ≤ n)
      (room : n ≤ b ^ 254) (before : Stores ms old m) (leaves : List Node) (given : NonEmpty leaves)
      (right : All (Right 0 n leaf) leaves)
      (kept : (j : ℕ)
        → j < n
        → All (λ x. x.position.index ≢ j) leaves
        → (j < m) × (old j ≡ leaf j)) where
    Kept-leaves : Kept hash b old leaf m n 0 leaves
    unfolding row node
    Kept-leaves j lt out = let k = kept j lt out in (tt, k.0, k.1)

    first_leaf :
        (xs : List Node)
        → NonEmpty xs
        → All (Right 0 (row b n 0) (node hash b leaf n 0)) xs
        → (x : Node) × (first xs ≡ some x) × Right 0 (row b n 0) (node hash b leaf n 0) x
    unfolding first
    first_leaf [] h r = absurd h
    first_leaf (x ∷ xs) h r = (x, refl, r.0)

    right_leaves : All (Right 0 (row b n 0) (node hash b leaf n 0)) leaves
    unfolding row node
    right_leaves = right

    root_data :
        (top : ℕ) (branches : List Node)
        → row b n top ≤ 1
        → Built hash b old leaf m n (get_node ms) schedule perm hb le before.2 0 top branches
        → (x : Node) × ((if ltb 1 (suc top) then last branches else first leaves) ≡ some x)
          × (x.node_data ≡ some (node hash b leaf n top 0))
    root_data top branches small built = elim built.2 [
      | inl done ↦ let zero_top = done.0 in one zero_top (first_leaf leaves given right_leaves)
      | inr found ↦
          let many : ltb 1 (suc top) ≡ true = let up = found.1 in ground arith in
          rw many (found.0, found.2, at_index found.0 found.3)
    ]
      where
        at_index :
            (x : Node)
            → Right top (row b n top) (node hash b leaf n top) x
            → x.node_data ≡ some (node hash b leaf n top 0)
        at_index x r =
            r.2 ∙ ap (λ i. some (node hash b leaf n top i)) (let low = r.1 in omega arith)

        one :
            top ≡ 0
            → (x : Node) × (first leaves ≡ some x) × Right 0 (row b n 0) (node hash b leaf n 0) x
            → (x : Node) × ((if ltb 1 (suc top) then last branches else first leaves) ≡ some x)
              × (x.node_data ≡ some (node hash b leaf n top 0))
        one z found =
            let no : ltb 1 (suc top) ≡ false = ground arith in
            rw no (
              found.0,
              found.1,
              at_index found.0
                  (subst (λ t. Right t (row b n t) (node hash b leaf n t) found.0) (sym z) found.2),
            )

    commit_update-Stores :
        (top : ℕ) (branches : List Node) (root : Node)
        → IsTop b n top
        → Built hash b old leaf m n (get_node ms) schedule perm hb le before.2 0 top branches
        → Stores
            (commit_update ms (record {
              leaf_count = n;
              tree_height = suc top;
              leaves = leaves;
              branches = branches;
              root = root;
            }))
            leaf
            n
    unfolding commit_update get_node
    commit_update-Stores top branches root at_top built = (
      refl,
      λ pos. at_top.0,
      λ l i t in_row.
          put_nodes-Fits (node hash b leaf n) l i branches (put_nodes leaves ms.nodes) built.0
            (λ out.
              put_nodes-Fits (node hash b leaf n) l i leaves ms.nodes
                (All-mono (Right 0 (row b n 0) (node hash b leaf n 0)) (Fits (node hash b leaf n))
                  leaves (λ x. Right-Fits (node hash b leaf n) 0 (row b n 0) x) right_leaves)
                (λ out_leaves.
                  let same_node = unchanged l i t in_row out_leaves out in
                  before.2 l i same_node.0 same_node.1 ∙ ap some same_node.2)),
    )
      where
        unchanged :
            (l i : ℕ)
            → InTree b n l
            → i < row b n l
            → All (λ x. x.position ≢ record { level = l; index = i }) leaves
            → All (λ x. x.position ≢ record { level = l; index = i }) branches
            → Same hash b old leaf m n l i
        unchanged zero i t in_row out_leaves out =
            Kept-Outside hash b old leaf m n (get_node ms) schedule perm hb le before.2 0 leaves i
              right_leaves Kept-leaves in_row out_leaves
        unchanged (suc l) i t in_row out_leaves out =
            built.1 (suc l) i (omega arith) (at_top.4 (suc l) t) in_row out

    -- Given a hash, a branch factor of 2 or more, workers that hand on the parents of a level in any order, a
    -- store that has the tree over `m` old leaves, `n` new leaves with `m ≤ n ≤ b ^ 254`, and a list of
    -- nodes, not empty, that are leaves below `n` with their new data and among which every leaf is that was
    -- not there or had other data: `Update` gives a result, its root has the data of the root of the tree
    -- computed from all new leaves, and `CommitUpdate` of it leaves a store that has the new tree.
    pub commit_update-update :
        (res : UpdateResult) × (update hash b (get_node ms) schedule leaves n ≡ some res)
        × Updated ms leaf n res
    unfolding update_to row
    commit_update-update = step (height-IsTop b n hb room)
      where
        finish :
            (top : ℕ)
            → IsTop b n top
            → (branches : List Node)
            → update_levels hash b (get_node ms) schedule (suc top - 1) leaves n ≡ branches
            → Built hash b old leaf m n (get_node ms) schedule perm hb le before.2 0 top branches
            → (res : UpdateResult) × (update hash b (get_node ms) schedule leaves n ≡ some res)
              × Updated ms leaf n res
        finish top at_top branches e built =
            let root = root_data top branches at_top.2 built in
            let down : suc top - 1 ≡ top = omega arith in
            (
              record {
                leaf_count = n;
                tree_height = suc top;
                leaves = leaves;
                branches = branches;
                root = root.0;
              },
              at_height hash b (get_node ms) schedule leaves n (suc top) at_top.0
                  ∙ rw (e, root.1) refl,
              (rw down root.2, commit_update-Stores top branches root.0 at_top built),
            )

        step :
            ((top : ℕ) × IsTop b n top)
            → (res : UpdateResult) × (update hash b (get_node ms) schedule leaves n ≡ some res)
              × Updated ms leaf n res
        step (top, at_top) =
            let down : suc top - 1 ≡ top = omega arith in
            finish top at_top (update_levels hash b (get_node ms) schedule (suc top - 1) leaves n)
              refl
              (rw down (
                update_levels-Built hash b old leaf m n (get_node ms) schedule perm hb le before.2
                  top 0 top leaves (omega arith) (let w = at_top.1 in omega arith) at_top.3 given
                  right_leaves Kept-leaves))
