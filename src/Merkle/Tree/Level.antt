-- ===== src/Merkle/Tree/Level.antt =====
-- One level of `Update` of merkle/tree.go: from the changed nodes of a level to the changed nodes above.
use native.Mathlib.Nat.{div-mul-le_self, div-eq_of_lt-le}
use mathlib.Core.Path.{subst}
use mathlib.Core.List.{Permᴰ}
use svp_blockchain.Base.{
  ℕ, suc, ◌+◌, ◌*◌, ◌/◌, ◌%◌, ◌≤◌, ◌<◌, ◌≢◌, inl, inr, Bool-cases, ltb, ◌≡◌, sym, ap, ◌∙◌, arith,
  some, List, All,
}
use svp_blockchain.Base.Bytes.{Bytes, Slice}
use svp_blockchain.Merkle.TreeCalc.{group_count, group_of_node}
use svp_blockchain.Merkle.TreeCalc.Height.{group_count-le, le-group_count}
use svp_blockchain.Merkle.Position.{Position}
use svp_blockchain.Merkle.Tree.{Node, group_position, make_parent, update_one_level}
use svp_blockchain.Merkle.Tree.Spec.{row, node, InTree, row-le, concat_row-agree}
use svp_blockchain.Merkle.Tree.Group.{Right, parent_of}
use svp_blockchain.Merkle.Tree.Load.{make_parent_lem}
use svp_blockchain.Merkle.Tree.Parents.{All-mono, All-update_one_level}

-- An index is in a row where its first child is in the row below.
pub lt-row_iff :
    (b n l g : ℕ)
    → 0 < b
    → (g < row b n (suc l) → g * b < row b n l) × (g * b < row b n l → g < row b n (suc l))
unfolding row
lt-row_iff b n l g h = (
  λ lt. elim (Bool-cases (ltb (g * b) (row b n l))) [
    | inl e ↦ ground arith
    | inr e ↦
        let over : row b n l ≤ b * g = ground arith in
        absurd (let x = group_count-le b (row b n l) g h over in omega (arith, lt, x))
  ],
  λ lt. elim (Bool-cases (ltb g (group_count b (row b n l)))) [
    | inl e ↦ ground arith
    | inr e ↦
        let over : group_count b (row b n l) ≤ g = ground arith in
        absurd (let x = le-group_count b (row b n l) g h over in omega (arith, lt, x))
  ],
)

-- The tree that the store keeps, over old leaves, and the tree to build.
module _ (hash : Bytes → Bytes) (b : ℕ) (old leaf : ℕ → Bytes) (m n : ℕ) where
  -- What no node of the list is about stood in the old tree as it stands in the new one.
  abbrev pub Kept : ℕ → List Node → Type 0
  Kept l nodes =
      (j : ℕ)
      → j < row b n l
      → All (λ x. x.position.index ≢ j) nodes
      → InTree b m l × (j < row b m l) × (node hash b old m l j ≡ node hash b leaf n l j)

  Kept-above :
      (l : ℕ) (nodes : List Node) (g : ℕ)
      → 2 ≤ b
      → m ≤ n
      → 1 < row b n l
      → Kept l nodes
      → g < row b n (suc l)
      → All (λ x. x.position.index / b ≢ g) nodes
      → InTree b m (suc l)
        × (g < row b m (suc l))
        × (node hash b old m (suc l) g ≡ node hash b leaf n (suc l) g)
  unfolding node
  Kept-above l nodes g hb le big kept lt none_here =
      let first = (lt-row_iff b n l g (omega arith)).0 lt in
      let here : (j : ℕ)
          → g * b ≤ j
          → j < g * b + b
          → j < row b n l
          → InTree b m l × (j < row b m l) × (node hash b old m l j ≡ node hash b leaf n l j) =
        λ j low high in_row. kept j in_row (
          All-mono (λ x. x.position.index / b ≢ g) (λ x. x.position.index ≢ j) nodes
            (λ x out e. out (ap (λ i. i / b) e ∙ div-eq_of_lt-le b low (omega arith))) none_here) in
      let at_first = (here (g * b) (omega arith) (omega arith) first).1 in
      let two : 1 < row b m l = elim (Bool-cases (ltb (g * b + 1) (row b n l))) [
        | inl e ↦
            let x = (here (g * b + 1) (omega arith) (omega arith) (ground arith)).1 in omega arith
        | inr e ↦ ground arith
      ] in
      (
        two,
        (lt-row_iff b m l g (omega arith)).1 at_first,
        ap hash (
            concat_row-agree (node hash b old m l) (node hash b leaf n l) (row b m l) (row b n l)
              (g * b) b (row-le b m n l (omega arith) le)
              (λ j low high in_row. let x = here j low high in_row in (x.1, x.2))),
      )

  module _ (get_node : Position → Slice) (schedule : List Node → List Node)
      (perm : (xs : List Node) → Permᴰ (schedule xs) xs) (hb : 2 ≤ b) (le : m ≤ n)
      (holds : (l i : ℕ)
        → InTree b m l
        → i < row b m l
        → get_node (record { level = l; index = i }) ≡ some (node hash b old m l i))
      (l : ℕ) (nodes : List Node) (width : l + 1 < 256) (big : 1 < row b n l)
      (right : All (Right l (row b n l) (node hash b leaf n l)) nodes) (kept : Kept l nodes) where
    make_parent-Right :
        (x : Node)
        → Right l (row b n l) (node hash b leaf n l) x
        → Right
            (suc l)
            (row b n (suc l))
            (node hash b leaf n (suc l))
            (make_parent hash b get_node schedule (row b n l) nodes (group_position b x))
    unfolding node group_position group_of_node make_parent
    make_parent-Right x r =
        let g = x.position.index / b in
        let low = div-mul-le_self x.position.index b in
        let first : g * b < row b n l = let i = r.1 in omega arith in
        let e : group_position b x ≡ parent_of l g =
          ap (λ i. record { level = (i + 1) % 256; index = g }) r.0 in
        let sum =
          make_parent_lem hash b get_node schedule (node hash b leaf n l) (row b n l) l g nodes
            (omega arith) width first right
            (λ j lt out.
              let old_one = kept j lt out.1 in holds l j old_one.0 old_one.1 ∙ ap some old_one.2) in
        subst
          (λ p.
            Right (suc l) (row b n (suc l)) (node hash b leaf n (suc l))
              (make_parent hash b get_node schedule (row b n l) nodes p))
          (sym e) (omega arith, (lt-row_iff b n l g (omega arith)).1 first, sum)

    pub update_one_level-Right :
        All
          (Right (suc l) (row b n (suc l)) (node hash b leaf n (suc l)))
          (update_one_level hash b get_node schedule nodes (row b n l))
    update_one_level-Right =
        (All-update_one_level hash b get_node schedule perm
            (Right (suc l) (row b n (suc l)) (node hash b leaf n (suc l))) (row b n l) nodes).0
          (All-mono (Right l (row b n l) (node hash b leaf n l))
            (λ x.
              Right (suc l) (row b n (suc l)) (node hash b leaf n (suc l))
                (make_parent hash b get_node schedule (row b n l) nodes (group_position b x)))
            nodes make_parent-Right right)

    pub update_one_level-Kept :
        Kept (suc l) (update_one_level hash b get_node schedule nodes (row b n l))
    unfolding make_parent group_position group_of_node
    update_one_level-Kept g lt out = Kept-above l nodes g hb le big kept lt (
        (All-update_one_level hash b get_node schedule perm (λ x. x.position.index ≢ g) (row b n l)
            nodes).1
          out)
