-- ===== src/Merkle/Tree/Parents.antt =====
-- The parents that a level of `Update` of merkle/tree.go hands on, whatever order the workers give them in.
use mathlib.Core.Path.{subst}
use mathlib.Core.List.{Permᴰ}
use mathlib.Core.List.Permᴰ as Permᴰ
use svp_blockchain.Base.{ℕ, true, ◌↔◌, inl, inr, Bool-cases, ◌≡◌, List, [], ◌∷◌, All}
use svp_blockchain.Base.Bytes.{Bytes, Slice}
use svp_blockchain.Merkle.Position.{Position}
use svp_blockchain.Merkle.Position.Codec.{same-position_bytes}
use svp_blockchain.Merkle.Tree.{
  Node, is_at, listed, unique, group_position, make_parent, make_parents, update_one_level,
}

pub All-mono {ℓ κ μ} :
    {A : Type ℓ} (P : A → Type κ) (Q : A → Type μ) (xs : List A)
    → ((x : A) → P x → Q x)
    → All P xs
    → All Q xs
All-mono P Q [] h p = tt
All-mono P Q (x ∷ xs) h p = (h x p.0, All-mono P Q xs h p.1)

All-Perm {ℓ κ} : {A : Type ℓ} (P : A → Type κ) (xs ys : List A) → Permᴰ xs ys → All P xs → All P ys
All-Perm P xs ys Permᴰ.nil p = tt
All-Perm P (x ∷ xs) (y ∷ ys) (Permᴰ.cons e d) p = (subst P e p.0, All-Perm P xs ys d p.1)
All-Perm P (x ∷ y ∷ xs) (z ∷ w ∷ xs') (Permᴰ.swap e d) p = (subst P d p.1.0, (subst P e p.0, p.1.1))
All-Perm P xs ys (Permᴰ.trans {l₂ = zs} d e) p = All-Perm P zs ys e (All-Perm P xs zs d p)

listed-All {κ} :
    (Q : Position → Type κ) (p : Position) (ps : List Position)
    → listed p ps ≡ true
    → All Q ps
    → Q p
unfolding listed is_at
listed-All Q p [] h a = absurd (cc)
listed-All Q p (q ∷ ps) h a = elim (Bool-cases (is_at q p)) [
  | inl e ↦ subst Q ((same-position_bytes q p).0 e) a.0
  | inr e ↦ listed-All Q p ps (rw e at h) a.1
]

All-unique :
    (Q : Position → Type 0) (f : Node → Position) (nodes : List Node)
    → All (λ n. Q (f n)) nodes
    → All Q (unique nodes f)
unfolding unique
All-unique Q f [] a = tt
All-unique Q f (n ∷ rest) a = elim (Bool-cases (listed (f n) (unique rest f))) [
  | inl e ↦ rw e (All-unique Q f rest a.1)
  | inr e ↦ rw e (a.0, All-unique Q f rest a.1)
]

All_of_unique :
    (Q : Position → Type 0) (f : Node → Position) (nodes : List Node)
    → All Q (unique nodes f)
    → All (λ n. Q (f n)) nodes
unfolding unique
All_of_unique Q f [] a = tt
All_of_unique Q f (n ∷ rest) a = elim (Bool-cases (listed (f n) (unique rest f))) [
  | inl e ↦
      let later : All Q (unique rest f) = rw e at a in
      (listed-All Q (f n) (unique rest f) e later, All_of_unique Q f rest later)
  | inr e ↦
      let both : All Q (f n ∷ unique rest f) = rw e at a in (both.0, All_of_unique Q f rest both.1)
]

module _ (hash : Bytes → Bytes) (b : ℕ) (get_node : Position → Slice)
    (schedule : List Node → List Node) (perm : (xs : List Node) → Permᴰ (schedule xs) xs) where
  All-make_parents :
      (P : Node → Type 0) (size : ℕ) (nodes : List Node) (ps : List Position)
      → All (λ p. P (make_parent hash b get_node schedule size nodes p)) ps
        ↔ All P (make_parents hash b get_node schedule size nodes ps)
  unfolding make_parents
  All-make_parents P size nodes [] = (λ a. tt, λ a. tt)
  All-make_parents P size nodes (p ∷ ps) =
      let ih = All-make_parents P size nodes ps in (λ a. (a.0, ih.0 a.1), λ a. (a.0, ih.1 a.1))

  -- What holds of the parents of all the nodes is what holds of all the nodes that the level hands on.
  pub All-update_one_level :
      (P : Node → Type 0) (size : ℕ) (nodes : List Node)
      → All (λ n. P (make_parent hash b get_node schedule size nodes (group_position b n))) nodes
        ↔ All P (update_one_level hash b get_node schedule nodes size)
  unfolding update_one_level
  All-update_one_level P size nodes =
      let ps = unique nodes (group_position b) in
      let made = make_parents hash b get_node schedule size nodes ps in
      let Q : Position → Type 0 = λ p. P (make_parent hash b get_node schedule size nodes p) in
      (
        λ a.
            All-Perm P made (schedule made) (Permᴰ.symm (perm made))
              ((All-make_parents P size nodes ps).0 (All-unique Q (group_position b) nodes a)),
        λ a.
            All_of_unique Q (group_position b) nodes (
              (All-make_parents P size nodes ps).1 (All-Perm P (schedule made) made (perm made) a)),
      )
