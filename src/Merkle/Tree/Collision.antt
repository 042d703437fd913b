-- ===== src/Merkle/Tree/Collision.antt =====
-- The root of the tree of merkle/tree.go binds the data of the leaves, short of two strings with one hash.
use native.Mathlib.Nat.{div-mul-le_self, lt-div-mul-add}
use svp_blockchain.Base.{
  ℕ, zero, suc, true, ◌+◌, ◌*◌, ◌/◌, ◌≤◌, ◌<◌, ◌≢◌, ◌⊎◌, inl, inr, Bool-cases, ltb, ◌==◌, ◌≡◌, refl,
  sym, ap, ◌∙◌, arith, [], ◌∷◌, ◌++◌, length,
}
use svp_blockchain.Base.Bytes.{Bytes, same, same_iff}
use svp_blockchain.Merkle.Tree.Spec.{row, concat_row, concat_row-agree, node}
use svp_blockchain.Merkle.Tree.Level.{lt-row_iff}

-- Two strings with one hash
abbrev pub Collision : (Bytes → Bytes) → Type 0
Collision hash = (x : Bytes) × (y : Bytes) × (x ≢ y) × (hash x ≡ hash y)

append-injective : (x y a c : Bytes) → length x ≡ length y → x ++ a ≡ y ++ c → (x ≡ y) × (a ≡ c)
append-injective [] [] a c e h = (refl, h)
append-injective [] (q ∷ y) a c e h = absurd (omega arith)
append-injective (p ∷ x) [] a c e h = absurd (omega arith)
append-injective (p ∷ x) (q ∷ y) a c e h = ground (arith, append-injective x y a c)

concat_row-injective :
    (f g : ℕ → Bytes) (size i k : ℕ)
    → ((j : ℕ) → length (f j) ≡ length (g j))
    → concat_row f size i k ≡ concat_row g size i k
    → (j : ℕ) → i ≤ j
    → j < i + k
    → j < size
    → f j ≡ g j
unfolding concat_row
concat_row-injective f g size i zero w h j low high lt = absurd (omega arith)
concat_row-injective f g size i (suc k) w h j low high lt = elim (Bool-cases (j == i)) [
  | inl e ↦
      let yes : ltb i size ≡ true = ground arith in
      let at : i ≡ j = ground arith in
      let both =
        append-injective (f i) (g i) (concat_row f size (suc i) k) (concat_row g size (suc i) k)
          (w i) (rw yes at h) in
      rw at at both.0
  | inr e ↦
      let yes : ltb i size ≡ true = ground arith in
      let both =
        append-injective (f i) (g i) (concat_row f size (suc i) k) (concat_row g size (suc i) k)
          (w i) (rw yes at h) in
      concat_row-injective f g size (suc i) k w both.1 j (ground arith) (omega arith) lt
]

abbrev pub SameData : (ℕ → Bytes) → (ℕ → Bytes) → ℕ → Type 0
SameData f g n = (i : ℕ) → i < n → f i ≡ g i

-- Two trees over the same data are the same.
pub node_agree :
    (hash : Bytes → Bytes) (b : ℕ) (f g : ℕ → Bytes) (n : ℕ)
    → 2 ≤ b
    → SameData f g n
    → (l i : ℕ) → i < row b n l
    → node hash b f n l i ≡ node hash b g n l i
unfolding node row
node_agree hash b f g n hb equal zero i lt = equal i lt
node_agree hash b f g n hb equal (suc l) i lt = ap hash (
    concat_row-agree (node hash b f n l) (node hash b g n l) (row b n l) (row b n l) (i * b) b
      (omega arith) (λ j low high in_row. (in_row, node_agree hash b f g n hb equal l j in_row)))

module _ (hash : Bytes → Bytes) (b : ℕ) (f g : ℕ → Bytes) (n width : ℕ) (hb : 2 ≤ b)
    (hash_width : (x : Bytes) → length (hash x) ≡ width) (f_width : (i : ℕ) → length (f i) ≡ width)
    (g_width : (i : ℕ) → length (g i) ≡ width) where
  node_width :
      (leaf : ℕ → Bytes)
      → ((i : ℕ) → length (leaf i) ≡ width)
      → (l i : ℕ) → length (node hash b leaf n l i) ≡ width
  unfolding node
  node_width leaf w zero i = w i
  node_width leaf w (suc l) i = hash_width (concat_row (node hash b leaf n l) (row b n l) (i * b) b)

  -- the two trees have one node at every index of the level
  abbrev Agree : ℕ → Type 0
  Agree l = (i : ℕ) → i < row b n l → node hash b f n l i ≡ node hash b g n l i

  groups-Agree :
      (l k : ℕ)
      → k ≤ row b n (suc l)
      → Agree (suc l)
      → ((i : ℕ)
          → i < k
          → concat_row (node hash b f n l) (row b n l) (i * b) b
            ≡ concat_row (node hash b g n l) (row b n l) (i * b) b)
        ⊎ Collision hash
  unfolding node
  groups-Agree l zero le agree = inl (λ i lt. absurd (omega arith))
  groups-Agree l (suc k) le agree =
      let x = concat_row (node hash b f n l) (row b n l) (k * b) b in
      let y = concat_row (node hash b g n l) (row b n l) (k * b) b in
      elim (groups-Agree l k (omega arith) agree) [
        | inr c ↦ inr c
        | inl below ↦ elim (Bool-cases (same x y)) [
          | inr differ ↦
              inr (x, y, (λ e. absurd (let q = (same_iff x y).1 e in cc)), agree k (omega arith))
          | inl e ↦ inl (λ i lt. elim (Bool-cases (i == k)) [
            | inl at_k ↦ let here : i ≡ k = ground arith in rw here ((same_iff x y).0 e)
            | inr other ↦ below i (ground arith)
          ])
        ]
      ]

  Agree-below : (l : ℕ) → Agree (suc l) → Agree l ⊎ Collision hash
  Agree-below l agree = elim (groups-Agree l (row b n (suc l)) (omega arith) agree) [
    | inr c ↦ inr c
    | inl below ↦ inl (λ i lt.
        let low = div-mul-le_self i b in
        let high = lt-div-mul-add {a = i} {b = b} (omega arith) in
        concat_row-injective (node hash b f n l) (node hash b g n l) (row b n l) (i / b * b) b
          (λ j. node_width f f_width l j ∙ sym (node_width g g_width l j))
          (below (i / b) ((lt-row_iff b n l (i / b) (omega arith)).1 (omega arith))) i low
          (omega arith) lt)
  ]

  leaves-Agree : (l : ℕ) → Agree l → Agree 0 ⊎ Collision hash
  leaves-Agree zero agree = inl agree
  leaves-Agree (suc l) agree = elim (Agree-below l agree) [
    | inr c ↦ inr c
    | inl below ↦ leaves-Agree l below
  ]

  pub one_root :
      (top : ℕ)
      → row b n top ≤ 1
      → node hash b f n top 0 ≡ node hash b g n top 0
      → SameData f g n ⊎ Collision hash
  unfolding node row
  one_root top small e = leaves-Agree top (λ i lt. let z : 0 ≡ i = omega arith in rw z at e)
