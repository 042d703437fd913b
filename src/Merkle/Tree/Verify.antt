-- ===== src/Merkle/Tree/Verify.antt =====
-- `Verify` of merkle/tree.go: what it accepts.
use mathlib.Core.List.{Permᴰ}
use mathlib.Core.Option.{some-injective}
use svp_blockchain.Base.{
  ℕ, zero, suc, true, false, ◌+◌, ◌-◌, ◌^◌, ◌%◌, ◌≤◌, ◌<◌, ◌≢◌, ◌⊎◌, inl, inr, Bool, Bool-cases,
  ◌==◌, ◌≡◌, refl, sym, ap, ◌∙◌, arith, some, List, [], ◌∷◌, length, All,
}
use svp_blockchain.Base.Bytes.{Bytes, same, same_iff}
use svp_blockchain.Merkle.Tree.{
  Node, update, verify, verify_root, root_node, stored, are_leaves, none_given,
}
use svp_blockchain.Merkle.Store.{MapStore, get_node, commit_update}
use svp_blockchain.Merkle.Tree.Spec.{row, node, InTree}
use svp_blockchain.Merkle.Tree.Group.{Right}
use svp_blockchain.Merkle.Tree.Level.{lt-row_iff}
use svp_blockchain.Merkle.Tree.Update.{NonEmpty}
use svp_blockchain.Merkle.Tree.Collision.{Collision, SameData, one_root, node_agree}
use svp_blockchain.Merkle.Tree.Top.{IsTop, height-IsTop}
use svp_blockchain.Merkle.Tree.Commit.{Stores, commit_update-update}

are_leaves-Right :
    (leaf : ℕ → Bytes) (n : ℕ) (xs : List Node) → All (Right 0 n leaf) xs → are_leaves n xs ≡ true
unfolding are_leaves
are_leaves-Right leaf n [] r = refl
are_leaves-Right leaf n (x ∷ xs) r =
    let ih = are_leaves-Right leaf n xs r.1 in
    let zero_level = r.0.0 in let small = r.0.1 in ground arith

none_given-NonEmpty : (xs : List Node) → NonEmpty xs → none_given xs ≡ false
unfolding none_given
none_given-NonEmpty [] h = absurd h
none_given-NonEmpty (x ∷ xs) h = refl

some_leaf :
    (leaf : ℕ → Bytes) (n : ℕ) (xs : List Node) → NonEmpty xs → All (Right 0 n leaf) xs → 0 < n
some_leaf leaf n [] h r = absurd h
some_leaf leaf n (x ∷ xs) h r = let lt = r.0.1 in omega arith

-- what an answer of `Verify` says of the data
abbrev pub Verdict : (ℕ → Bytes) → (ℕ → Bytes) → ℕ → Bool → Type 0
Verdict leaf claimed n true = SameData leaf claimed n
Verdict leaf claimed n false = ¬ (SameData leaf claimed n)

module _ (hash : Bytes → Bytes) (b : ℕ) (schedule : List Node → List Node)
    (perm : (xs : List Node) → Permᴰ (schedule xs) xs) (ms : MapStore) (leaf claimed : ℕ → Bytes)
    (n : ℕ) (hb : 2 ≤ b) (room : n ≤ b ^ 254) (before : Stores hash b ms leaf n)
    (leaves : List Node) (given : NonEmpty leaves) (right : All (Right 0 n claimed) leaves)
    (kept : (j : ℕ) → j < n → All (λ x. x.position.index ≢ j) leaves → leaf j ≡ claimed j) where
  row_pos : (l : ℕ) → 0 < row b n l
  unfolding row
  row_pos zero = some_leaf claimed n leaves given right
  row_pos (suc l) = (lt-row_iff b n l 0 (omega arith)).1 (let h = row_pos l in omega arith)

  IsTop-InTree : (top : ℕ) → IsTop b n top → InTree b n top
  IsTop-InTree zero t = tt
  IsTop-InTree (suc l) t = t.3 l (omega arith)

  root_stored :
      (top : ℕ)
      → IsTop b n top
      → (r : Node) × (root_node (get_node ms) ms.tree_height ≡ some r)
        × (r.node_data ≡ some (node hash b leaf n top 0))
  unfolding root_node stored
  root_stored top t =
      let e : suc top ≡ ms.tree_height =
        some-injective (suc top) ms.tree_height
          (sym t.0 ∙ before.1 (some_leaf claimed n leaves given right)) in
      let level : (ms.tree_height + 255) % 256 ≡ top = let w = t.1 in omega arith in
      let data_here = before.2 top 0 (IsTop-InTree top t) (row_pos top) in
      (
        record {
          position = record { level = (ms.tree_height + 255) % 256; index = 0 };
          node_data = some (node hash b leaf n top 0);
        },
        rw (level, data_here) refl,
        refl,
      )

  same_roots :
      (top : ℕ)
      → IsTop b n top
      → verify hash b (get_node ms) schedule ms.tree_height ms.leaf_count leaves
        ≡ some (same (node hash b leaf n top 0) (node hash b claimed n top 0))
  unfolding verify verify_root commit_update
  same_roots top t =
      let updated =
        commit_update-update hash b schedule perm ms leaf claimed n n hb (omega arith) room before
          leaves given right (λ j lt out. (lt, kept j lt out)) in
      let root = root_stored top t in
      let some_leaves = some_leaf claimed n leaves given right in
      let e : suc top ≡ updated.0.tree_height =
        some-injective (suc top) updated.0.tree_height (sym t.0 ∙ updated.2.1.1 some_leaves) in
      let down : updated.0.tree_height - 1 ≡ top = omega arith in
      let at_root : updated.0.root.node_data ≡ some (node hash b claimed n top 0) =
        rw down at updated.2.0 in
      let count = before.0 in
      let many : (ms.leaf_count == 0) ≡ false = ground arith in
      let ok = are_leaves-Right claimed n leaves right in
      let upd : update hash b (get_node ms) schedule leaves ms.leaf_count ≡ some updated.0 =
        ap (λ c. update hash b (get_node ms) schedule leaves c) count ∙ updated.1 in
      ap (verify_root hash b (get_node ms) schedule ms.leaf_count leaves) root.1
      ∙ rw
          (
            none_given-NonEmpty leaves given,
            many,
            (ap (λ c. are_leaves c leaves) count ∙ ok),
            upd,
            root.2,
            at_root,
          )
          refl

  -- Given a store that has the tree over `n` leaves, `n ≤ b ^ 254`, a branch factor of 2 or more, a hash and
  -- leaves of one width, and a list of nodes, not empty, that are leaves below `n` with the data that are
  -- claimed, where the claim is the tree's own for every other leaf: `Verify` answers, and it accepts where all
  -- claimed data are the tree's, and rejects where they are not, unless two strings have one hash.
  pub verify-Collision :
      (width : ℕ)
      → ((x : Bytes) → length (hash x) ≡ width)
      → ((i : ℕ) → length (leaf i) ≡ width)
      → ((i : ℕ) → length (claimed i) ≡ width)
      → ((answer : Bool) × (verify hash b (get_node ms) schedule ms.tree_height ms.leaf_count leaves
            ≡ some answer)
          × Verdict leaf claimed n answer)
        ⊎ Collision hash
  verify-Collision width hash_width leaf_width claimed_width = step (height-IsTop b n hb room)
    where
      step :
          ((top : ℕ) × IsTop b n top)
          → ((answer : Bool) × (verify hash b
                  (get_node ms)
                  schedule
                  ms.tree_height
                  ms.leaf_count
                  leaves
                ≡ some answer)
              × Verdict leaf claimed n answer)
            ⊎ Collision hash
      step (top, t) =
          let x = node hash b leaf n top 0 in
          let y = node hash b claimed n top 0 in
          let e = same_roots top t in
          elim (Bool-cases (same x y)) [
            | inl good ↦
                elim (one_root hash b leaf claimed n width hb hash_width leaf_width claimed_width
                  top t.2 ((same_iff x y).0 good)) [
                    | inl equal ↦ inl (true, e ∙ ap some good, equal)
                    | inr c ↦ inr c
                  ]
            | inr bad ↦ inl (
              false,
              e ∙ ap some bad,
              λ equal. absurd (
                  let roots =
                    (same_iff x y).1
                      (node_agree hash b leaf claimed n hb equal top 0 (row_pos top)) in
                  cc),
            )
          ]
