-- ===== src/Merkle/Tree/Load.antt =====
-- What `Load` of merkle/types.go brings from the store completes the group, and the parent's data is the
-- hash of the row of its children.
use svp_blockchain.Base.{
  ℕ, zero, suc, true, false, ◌+◌, ◌*◌, ◌/◌, ◌%◌, ◌≤◌, ◌<◌, ◌≢◌, inl, inr, Bool, Bool-cases, ltb,
  if◌then◌else◌, ◌≡◌, refl, ap, ◌∙◌, arith, none, some, List, [], ◌∷◌, All, set, length, replicate,
  length-replicate,
}
use svp_blockchain.Base.Bytes.{Bytes, Slice}
use svp_blockchain.Merkle.TreeCalc.{first_node_of_group, node_index_in_group}
use svp_blockchain.Merkle.Position.{Position}
use svp_blockchain.Merkle.Tree.{
  Node, Slots, set_node, is_empty, write_slots, stored, load, is_at, group_position, set_nodes,
  sum_slots, make_parent,
}
use svp_blockchain.Merkle.Tree.Spec.{concat_row}
use svp_blockchain.Merkle.Tree.Group.{
  Partial, Right, parent_of, set_nodes-Partial, replicate-Partial,
}

module _ (f : ℕ → Bytes) (size : ℕ) (Out : ℕ → Type 0) where
  write_slots_beyond : (i : ℕ) (s : Slots) → size ≤ i → Partial f size Out i s → write_slots s ≡ []
  unfolding write_slots
  write_slots_beyond i [] le p = refl
  write_slots_beyond i (none ∷ s) le p = write_slots_beyond (suc i) s (omega arith) p.1
  write_slots_beyond i (some n ∷ s) le p = absurd (let x = p.0.0 in omega arith)

concat_row_beyond : (f : ℕ → Bytes) (size i k : ℕ) → size ≤ i → concat_row f size i k ≡ []
unfolding concat_row
concat_row_beyond f size i zero le = refl
concat_row_beyond f size i (suc k) le =
    let no : ltb i size ≡ false = ground arith in
    rw no (concat_row_beyond f size (suc i) k (omega arith))

module _ (f : ℕ → Bytes) (size : ℕ) (Out : ℕ → Type 0) (get_node : Position → Slice) (l : ℕ)
    (kept : (j : ℕ)
      → j < size
      → Out j
      → get_node (record { level = l; index = j }) ≡ some (f j)) where
  write_slots-load :
      (i : ℕ) (s : Slots)
      → Partial f size Out i s
      → write_slots (load get_node l size i s) ≡ concat_row f size i (length s)
  unfolding write_slots load stored concat_row
  write_slots-load i [] p = refl
  write_slots-load i (some n ∷ s) p =
      let yes : ltb i size ≡ true = let x = p.0.0 in ground arith in
      rw (yes, p.0.1, write_slots-load (suc i) s p.1) refl
  write_slots-load i (none ∷ s) p = elim (Bool-cases (ltb i size)) [
    | inl e ↦ rw (e, kept i (ground arith) p.0, write_slots-load (suc i) s p.1) refl
    | inr e ↦
        let le : size ≤ suc i = ground arith in
        rw (e, concat_row_beyond f size (suc i) (length s) le)
          (write_slots_beyond f size Out (suc i) s le p.1)
  ]

  is_empty-load :
      (i : ℕ) (s : Slots)
      → i < size
      → 0 < length s
      → Partial f size Out i s
      → is_empty (load get_node l size i s) ≡ false
  unfolding is_empty load stored
  is_empty-load i [] lt h p = absurd (omega arith)
  is_empty-load i (some n ∷ s) lt h p = refl
  is_empty-load i (none ∷ s) lt h p =
      let yes : ltb i size ≡ true = ground arith in rw (yes, kept i lt p.0) refl

length-set {ℓ} : {A : Type ℓ} (s : List A) (i : ℕ) (v : A) → length (set s i v) ≡ length s
length-set [] i v = refl
length-set (x ∷ s) zero v = refl
length-set (x ∷ s) (suc i) v = ap suc (length-set s i v)

length-set_nodes :
    (b : ℕ) (p : Position) (nodes : List Node) (s : Slots)
    → length (set_nodes b p nodes s) ≡ length s
unfolding set_nodes set_node node_index_in_group
length-set_nodes b p [] s = refl
length-set_nodes b p (n ∷ rest) s =
    length-set_nodes b p rest (if is_at (group_position b n) p then set_node b s n else s)
    ∙ one (is_at (group_position b n) p)
  where
    one : (t : Bool) → length (if t then set_node b s n else s) ≡ length s
    one true = length-set s (n.position.index % b) (some n)
    one false = refl

pub make_parent_lem :
    (hash : Bytes → Bytes) (b : ℕ) (get_node : Position → Slice) (schedule : List Node → List Node)
    (f : ℕ → Bytes) (size l g : ℕ) (nodes : List Node)
    → 0 < b
    → l + 1 < 256
    → g * b < size
    → All (Right l size f) nodes
    → ((j : ℕ)
        → j < size
        → (j / b ≡ g) × All (λ n. n.position.index ≢ j) nodes
        → get_node (record { level = l; index = j }) ≡ some (f j))
    → (make_parent hash b get_node schedule size nodes (parent_of l g)).node_data
      ≡ some (hash (concat_row f size (g * b) b))
unfolding make_parent sum_slots first_node_of_group
make_parent_lem hash b get_node schedule f size l g nodes h w first good kept =
    let Out : ℕ → Type 0 = λ j. (j / b ≡ g) × All (λ n. n.position.index ≢ j) nodes in
    let slots = set_nodes b (parent_of l g) nodes (replicate b none) in
    let long : length slots ≡ b =
      length-set_nodes b (parent_of l g) nodes (replicate b none) ∙ length-replicate b none in
    let part : Partial f size Out (g * b) slots =
      set_nodes-Partial f size b l g (λ j. j / b ≡ g) nodes (replicate b none) good (λ j e. e)
        (replicate-Partial f size b g (g * b) b (omega arith) (omega arith)) in
    let down : ((l + 1) % 256 + 255) % 256 ≡ l = omega arith in
    rw
      (
        down,
        is_empty-load f size Out get_node l kept (g * b) slots first (omega arith) part,
        write_slots-load f size Out get_node l kept (g * b) slots part,
        long,
      )
      refl
