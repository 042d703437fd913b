-- ===== src/Merkle/Tree/Group.antt =====
-- A group of merkle/types.go that has its new children set and the rest loaded has the data of the node
-- that the tree has there.
use svp_blockchain.Base.{
  ℕ, zero, suc, true, false, ◌+◌, ◌*◌, ◌/◌, ◌%◌, ◌≤◌, ◌<◌, ◌≢◌, ◌↔◌, inl, inr, Bool-cases, ◌≡◌, sym,
  ap, ◌∙◌, arith, Option, none, some, List, [], ◌∷◌, All, set, replicate,
}
use native.Mathlib.Nat.{div-eq_of_lt-le, div-add-mod'}
use svp_blockchain.Base.Bytes.{Bytes}
use svp_blockchain.Merkle.TreeCalc.{group_of_node, node_index_in_group}
use svp_blockchain.Merkle.Position.{Position}
use svp_blockchain.Merkle.Position.Codec.{same-position_bytes}
use svp_blockchain.Merkle.Tree.{Node, Slots, set_node, group_position, is_at, set_nodes}

-- A node of a level with the data that `f` gives its index
abbrev pub Right : ℕ → ℕ → (ℕ → Bytes) → Node → Type 0
Right l size f n =
    (n.position.level ≡ l) × (n.position.index < size) × (n.node_data ≡ some (f n.position.index))

-- Every slot, from index i on, has right data or has nothing where `Out` holds.
abbrev pub Partial : (ℕ → Bytes) → ℕ → (ℕ → Type 0) → ℕ → Slots → Type 0
Partial f size Out i [] = Unit
Partial f size Out i (none ∷ s) = Out i × Partial f size Out (suc i) s
Partial f size Out i (some n ∷ s) =
    ((i < size) × (n.node_data ≡ some (f i))) × Partial f size Out (suc i) s

-- the position of the group with the index `g` over the level `l`
abbrev pub parent_of : ℕ → ℕ → Position
parent_of l g = record { level = (l + 1) % 256; index = g }

pub group_position-parent_of :
    (b l g : ℕ) (n : Node)
    → n.position.level ≡ l
    → (is_at (group_position b n) (parent_of l g) ≡ true) ↔ (n.position.index / b ≡ g)
unfolding is_at group_position group_of_node
group_position-parent_of b l g n e =
    let both = same-position_bytes (group_position b n) (parent_of l g) in
    (
      λ h. ap (λ p. p.index) (both.0 h),
      λ h. both.1 (
          ap (λ i. record { level = (i + 1) % 256; index = n.position.index / b }) e
          ∙ ap (parent_of l) h),
    )

module _ (f : ℕ → Bytes) (size : ℕ) where
  Partial-mono :
      (P Q : ℕ → Type 0) (i : ℕ) (s : Slots)
      → ((j : ℕ) → i ≤ j → P j → Q j)
      → Partial f size P i s
      → Partial f size Q i s
  Partial-mono P Q i [] h p = tt
  Partial-mono P Q i (none ∷ s) h p =
      (h i (omega arith) p.0, Partial-mono P Q (suc i) s (λ j le. h j (omega arith)) p.1)
  Partial-mono P Q i (some n ∷ s) h p =
      (p.0, Partial-mono P Q (suc i) s (λ j le. h j (omega arith)) p.1)

  set-Partial :
      (Out : ℕ → Type 0) (n : Node) (i : ℕ) (s : Slots) (k : ℕ)
      → i + k < size
      → n.node_data ≡ some (f (i + k))
      → Partial f size Out i s
      → Partial f size (λ j. Out j × (i + k ≢ j)) i (set s k (some n))
  set-Partial Out n i [] k b e p = tt
  set-Partial Out n i (o ∷ s) zero b e p =
      let i_eq : i + 0 ≡ i = omega arith in
      (
        (omega arith, e ∙ ap (λ j. some (f j)) i_eq),
        Partial-mono Out (λ j. Out j × (i + 0 ≢ j)) (suc i) s (λ j le q. (q, λ w. omega arith))
            (tail o p),
      )
    where
      tail : (o : Option Node) → Partial f size Out i (o ∷ s) → Partial f size Out (suc i) s
      tail none p = p.1
      tail (some m) p = p.1
  set-Partial Out n i (o ∷ s) (suc k) b e p =
      let shift : i + suc k ≡ suc i + k = omega arith in
      let later : Partial f size Out (suc i) s
          → Partial f size (λ j. Out j × (i + suc k ≢ j)) (suc i) (set s k (some n)) =
        λ q.
          rw shift
            (set-Partial Out n (suc i) s k (omega arith) (e ∙ ap (λ j. some (f j)) shift) q) in
      step o later p
    where
      step :
          (o : Option Node)
          → (Partial f size Out (suc i) s
              → Partial f size (λ j. Out j × (i + suc k ≢ j)) (suc i) (set s k (some n)))
          → Partial f size Out i (o ∷ s)
          → Partial f size (λ j. Out j × (i + suc k ≢ j)) i (o ∷ set s k (some n))
      step none later p = ((p.0, λ w. omega arith), later p.1)
      step (some m) later p = (p.0, later p.1)

  -- the slots of a fresh group
  pub replicate-Partial :
      (b g i k : ℕ)
      → g * b ≤ i
      → i + k ≤ g * b + b
      → Partial f size (λ j. j / b ≡ g) i (replicate k none)
  replicate-Partial b g i zero low high = tt
  replicate-Partial b g i (suc k) low high = (
    div-eq_of_lt-le b low (omega arith),
    replicate-Partial b g (suc i) k (omega arith) (omega arith),
  )

  set_node-Partial :
      (b : ℕ) (Out : ℕ → Type 0) (n : Node) (g : ℕ) (s : Slots)
      → n.position.index / b ≡ g
      → n.position.index < size
      → n.node_data ≡ some (f n.position.index)
      → Partial f size Out (g * b) s
      → Partial f size (λ j. Out j × (n.position.index ≢ j)) (g * b) (set_node b s n)
  unfolding set_node node_index_in_group
  set_node-Partial b Out n g s e small d p =
      let place : g * b + n.position.index % b ≡ n.position.index =
        ap (λ q. q * b + n.position.index % b) (sym e) ∙ div-add-mod' n.position.index b in
      let q =
        set-Partial Out n (g * b) s (n.position.index % b) (rw place small)
          (d ∙ ap (λ j. some (f j)) (sym place)) p in
      rw place at q

  pub set_nodes-Partial :
      (b l g : ℕ) (Out : ℕ → Type 0) (nodes : List Node) (s : Slots)
      → All (Right l size f) nodes
      → ((j : ℕ) → Out j → j / b ≡ g)
      → Partial f size Out (g * b) s
      → Partial f size
          (λ j. Out j × All (λ n. n.position.index ≢ j) nodes)
          (g * b)
          (set_nodes b (parent_of l g) nodes s)
  unfolding set_nodes
  set_nodes-Partial b l g Out [] s good range p =
      Partial-mono Out (λ j. Out j × Unit) (g * b) s (λ j le q. (q, tt)) p
  set_nodes-Partial b l g Out (n ∷ rest) s good range p =
      let at = is_at (group_position b n) (parent_of l g) in
      elim (Bool-cases at) [
        | inl e ↦
            let q =
              set_nodes-Partial b l g (λ j. Out j × (n.position.index ≢ j)) rest (set_node b s n)
                good.1 (λ j o. range j o.0)
                (set_node-Partial b Out n g s (((group_position-parent_of b l g n good.0.0).0 e))
                  good.0.1 good.0.2 p) in
            rw e (
              Partial-mono
                (λ j. (Out j × (n.position.index ≢ j)) × All (λ n. n.position.index ≢ j) rest)
                (λ j. Out j × All (λ n. n.position.index ≢ j) (n ∷ rest)) (g * b)
                (set_nodes b (parent_of l g) rest (set_node b s n))
                (λ j le o. (o.0.0, (o.0.1, o.1))) q)
        | inr e ↦
            let q = set_nodes-Partial b l g Out rest s good.1 range p in
            let apart : at ≡ false → (j : ℕ) → j / b ≡ g → n.position.index ≢ j = λ no j here w.
              absurd (
                let yes =
                  (group_position-parent_of b l g n good.0.0).1 (ap (λ i. i / b) w ∙ here) in
                cc) in
            rw e (
              Partial-mono (λ j. Out j × All (λ n. n.position.index ≢ j) rest)
                (λ j. Out j × All (λ n. n.position.index ≢ j) (n ∷ rest)) (g * b)
                (set_nodes b (parent_of l g) rest s)
                (λ j le o. (o.0, (apart e j (range j o.0), o.1))) q)
      ]
