-- ===== src/Merkle/Tree/Update.antt =====
-- The levels of `Update` of merkle/tree.go together: every branch that they make is the tree's, and what they
-- leave out stood in the old tree.
use mathlib.Core.Path.{subst}
use mathlib.Core.List.{Permᴰ}
use svp_blockchain.Base.{
  ℕ, zero, suc, ◌+◌, ◌≤◌, ◌<◌, ◌≢◌, ◌⊎◌, inl, inr, Bool-cases, ◌==◌, ◌≡◌, refl, sym, ap, ◌∙◌, arith,
  some, List, [], ◌∷◌, ◌++◌, All,
}
use svp_blockchain.Base.Bytes.{Bytes, Slice}
use svp_blockchain.Merkle.TreeCalc.{group_count}
use svp_blockchain.Merkle.Position.{Position}
use svp_blockchain.Merkle.Tree.{Node, update_one_level, update_levels, last}
use svp_blockchain.Merkle.Tree.Spec.{row, node, InTree}
use svp_blockchain.Merkle.Tree.Group.{Right}
use svp_blockchain.Merkle.Tree.Parents.{All-mono, All-update_one_level}
use svp_blockchain.Merkle.Tree.Level.{Kept, update_one_level-Right, update_one_level-Kept}

abbrev pub NonEmpty : List Node → Type 0
NonEmpty [] = ⊥
NonEmpty (x ∷ xs) = Unit

All-append :
    (P : Node → Type 0) (xs ys : List Node)
    → (All P xs → All P ys → All P (xs ++ ys)) × (All P (xs ++ ys) → All P xs × All P ys)
All-append P [] ys = (λ a b. b, λ b. (tt, b))
All-append P (x ∷ xs) ys =
    let ih = All-append P xs ys in
    (λ a b. (a.0, ih.0 a.1 b), λ b. let r = ih.1 b.1 in ((b.0, r.0), r.1))

last_append : (xs ys : List Node) (x : Node) → last ys ≡ some x → last (xs ++ ys) ≡ some x
unfolding last
last_append [] ys x e = e
last_append (a ∷ []) [] x e = cc
last_append (a ∷ []) (y ∷ ys) x e = e
last_append (a ∷ c ∷ xs) ys x e = last_append (c ∷ xs) ys x e

last-All :
    (P : Node → Type 0) (xs : List Node)
    → NonEmpty xs
    → All P xs
    → (x : Node) × (last (xs ++ []) ≡ some x) × P x
unfolding last
last-All P [] h a = absurd h
last-All P (x ∷ []) h a = (x, refl, a.0)
last-All P (x ∷ y ∷ xs) h a = last-All P (y ∷ xs) tt a.1

-- The data is what the tree has at the position.
abbrev pub Fits : (ℕ → ℕ → Bytes) → Node → Type 0
Fits value x = x.node_data ≡ some (value x.position.level x.position.index)

pub Right-Fits :
    (value : ℕ → ℕ → Bytes) (l size : ℕ) (x : Node) → Right l size (value l) x → Fits value x
Right-Fits value l size x r = r.2 ∙ ap (λ i. some (value i x.position.index)) (sym r.0)

-- An entry of the new tree that is none of the nodes' was in the old tree.
abbrev pub Outside : (ℕ → ℕ → Type 0) → List Node → ℕ → ℕ → Type 0
Outside Same nodes l i = All (λ x. x.position ≢ record { level = l; index = i }) nodes → Same l i

module _ (hash : Bytes → Bytes) (b : ℕ) (old leaf : ℕ → Bytes) (m n : ℕ) where
  abbrev pub Same : ℕ → ℕ → Type 0
  Same l i = InTree b m l × (i < row b m l) × (node hash b old m l i ≡ node hash b leaf n l i)

  module _ (get_node : Position → Slice) (schedule : List Node → List Node)
      (perm : (xs : List Node) → Permᴰ (schedule xs) xs) (hb : 2 ≤ b) (le : m ≤ n)
      (holds : (l i : ℕ)
        → InTree b m l
        → i < row b m l
        → get_node (record { level = l; index = i }) ≡ some (node hash b old m l i)) where
    update_one_level-NonEmpty :
        (size : ℕ) (nodes : List Node)
        → NonEmpty nodes
        → NonEmpty (update_one_level hash b get_node schedule nodes size)
    update_one_level-NonEmpty size [] h = elim h [ ]
    update_one_level-NonEmpty size (x ∷ nodes) h =
        step (update_one_level hash b get_node schedule (x ∷ nodes) size)
          (All-update_one_level hash b get_node schedule perm (λ y. ⊥) size (x ∷ nodes)).1
      where
        step : (ps : List Node) → (All (λ y. ⊥) ps → All (λ y. ⊥) (x ∷ nodes)) → NonEmpty ps
        step [] back = (back tt).0
        step (p ∷ ps) back = tt

    pub Kept-Outside :
        (l : ℕ) (nodes : List Node) (i : ℕ)
        → All (Right l (row b n l) (node hash b leaf n l)) nodes
        → Kept hash b old leaf m n l nodes
        → i < row b n l
        → Outside Same nodes l i
    Kept-Outside l nodes i right kept lt out = kept i lt (away nodes right out)
      where
        away :
            (xs : List Node)
            → All (Right l (row b n l) (node hash b leaf n l)) xs
            → All (λ x. x.position ≢ record { level = l; index = i }) xs
            → All (λ x. x.position.index ≢ i) xs
        away [] r o = tt
        away (x ∷ xs) r o = (
          (λ e. o.0 (
              ap (λ k. record { level = k; index = x.position.index }) r.0.0
              ∙ ap (λ k. record { level = l; index = k }) e)),
          away xs r.1 o.1,
        )

    -- What the rounds from the level `l` up to the level `top` hand on
    abbrev pub Built : ℕ → ℕ → List Node → Type 0
    Built l top branches =
        All (Fits (node hash b leaf n)) branches
        × ((k i : ℕ) → l < k → k ≤ top → i < row b n k → Outside Same branches k i)
        × (((top ≡ l) × (branches ≡ []))
            ⊎ ((x : Node) × (l < top)
                × (last branches ≡ some x)
                × Right top (row b n top) (node hash b leaf n top) x))

    pub update_levels-Built :
        (rounds l top : ℕ) (nodes : List Node)
        → top ≡ l + rounds
        → top < 256
        → ((k : ℕ) → k < top → 1 < row b n k)
        → NonEmpty nodes
        → All (Right l (row b n l) (node hash b leaf n l)) nodes
        → Kept hash b old leaf m n l nodes
        → Built l top (update_levels hash b get_node schedule rounds nodes (row b n l))
    unfolding update_levels group_count row
    update_levels-Built zero l top nodes e w big some_node right kept =
        (tt, λ k i lt le'. absurd (omega (arith, e, lt, le')), inl (omega arith, refl))
    update_levels-Built (suc rounds) l top nodes e w big some_node right kept =
        let ps = update_one_level hash b get_node schedule nodes (row b n l) in
        let up_right : All (Right (suc l) (row b n (suc l)) (node hash b leaf n (suc l))) ps =
          update_one_level-Right hash b old leaf m n get_node schedule perm hb le holds l nodes
            (omega arith) (big l (omega arith)) right kept in
        let up_kept : Kept hash b old leaf m n (suc l) ps =
          update_one_level-Kept hash b old leaf m n get_node schedule perm hb le holds l nodes
            (omega arith) (big l (omega arith)) right kept in
        let up_some : NonEmpty ps = update_one_level-NonEmpty (row b n l) nodes some_node in
        combine ps (update_levels hash b get_node schedule rounds ps (row b n (suc l))) up_right
          up_kept up_some
          (update_levels-Built rounds (suc l) top ps (omega arith) w big up_some up_right up_kept)
      where
        combine :
            (ps later : List Node)
            → All (Right (suc l) (row b n (suc l)) (node hash b leaf n (suc l))) ps
            → Kept hash b old leaf m n (suc l) ps
            → NonEmpty ps
            → Built (suc l) top later
            → Built l top (ps ++ later)
        combine ps later r k s built = (
          (All-append (Fits (node hash b leaf n)) ps later).0
              (All-mono (Right (suc l) (row b n (suc l)) (node hash b leaf n (suc l)))
                (Fits (node hash b leaf n)) ps
                (λ x. Right-Fits (node hash b leaf n) (suc l) (row b n (suc l)) x) r)
              built.0,
          cover,
          inr (elim built.2 [
            | inr found ↦ (
              found.0,
              (let up = found.1 in omega arith),
              last_append ps later found.0 found.2,
              found.3,
            )
            | inl done ↦
                let at_top =
                  last-All (Right (suc l) (row b n (suc l)) (node hash b leaf n (suc l))) ps s r in
                (
                  at_top.0,
                  (let up = done.0 in omega arith),
                  ap (λ zs. last (ps ++ zs)) done.1 ∙ at_top.1,
                  subst (λ t. Right t (row b n t) (node hash b leaf n t) at_top.0) (sym done.0)
                      at_top.2,
                )
          ]),
        )
          where
            cover : (j i : ℕ) → l < j → j ≤ top → i < row b n j → Outside Same (ps ++ later) j i
            cover j i lt up in_row out =
                let both =
                  (All-append (λ x. x.position ≢ record { level = j; index = i }) ps later).1 out in
                elim (Bool-cases (j == suc l)) [
                  | inl e ↦
                      let here : suc l ≡ j = ground arith in
                      subst (λ t. i < row b n t → Outside Same ps t i) here
                        (λ lt. Kept-Outside (suc l) ps i r k lt) in_row both.0
                  | inr e ↦ built.1 j i (ground arith) up in_row both.1
                ]
