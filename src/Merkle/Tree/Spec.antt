-- ===== src/Merkle/Tree/Spec.antt =====
-- The tree that merkle/tree.go stands for: every node computed from the leaves.
use svp_blockchain.Base.{
  ℕ, zero, suc, true, false, ◌+◌, ◌*◌, ◌^◌, ◌≤◌, ◌<◌, inl, inr, Bool-cases, ltb, if◌then◌else◌, ◌≡◌,
  refl, ap, ◌∙◌, arith, [], ◌++◌,
}
use native.Mathlib.Nat.{pow-zero, pow-suc, mul_assoc}
use svp_blockchain.Base.Bytes.{Bytes}
use svp_blockchain.Merkle.TreeCalc.{group_count}
use svp_blockchain.Merkle.TreeCalc.Height.{group_count-le, le-group_count}

-- how many nodes a level has over `n` leaves
unfoldable pub row : ℕ → ℕ → ℕ → ℕ
unfolding group_count
row b n zero = n
row b n (suc l) = group_count b (row b n l)

-- the data of `k` nodes from `i` on, as far as the row of `size` nodes goes
unfoldable pub concat_row : (ℕ → Bytes) → ℕ → ℕ → ℕ → Bytes
concat_row f size i zero = []
concat_row f size i (suc k) =
    let later = concat_row f size (suc i) k in if ltb i size then f i ++ later else later

module _ (hash : Bytes → Bytes) (b : ℕ) where
  unfoldable pub node : (ℕ → Bytes) → ℕ → ℕ → ℕ → Bytes
  unfolding row concat_row
  node leaf n zero i = leaf i
  node leaf n (suc l) i = hash (concat_row (node leaf n l) (row b n l) (i * b) b)

-- A level is in the tree when it is the leaves' or stands over two nodes or more.
abbrev pub InTree : ℕ → ℕ → ℕ → Type 0
InTree b n zero = Unit
InTree b n (suc l) = 1 < row b n l

pub concat_row-agree :
    (f g : ℕ → Bytes) (m n i k : ℕ)
    → m ≤ n
    → ((j : ℕ) → i ≤ j → j < i + k → j < n → (j < m) × (f j ≡ g j))
    → concat_row f m i k ≡ concat_row g n i k
unfolding concat_row
concat_row-agree f g m n i zero le h = refl
concat_row-agree f g m n i (suc k) le h =
    let later =
      concat_row-agree f g m n (suc i) k le (λ j a c d. h j (omega arith) (omega arith) d) in
    elim (Bool-cases (ltb i n)) [
      | inl e ↦
          let here = h i (omega arith) (omega arith) (ground arith) in
          let small : ltb i m ≡ true = let x = here.0 in ground arith in
          rw (e, small, here.1, later) refl
      | inr e ↦ let small : ltb i m ≡ false = ground arith in rw (e, small) later
    ]

pub row-le : (b n m l : ℕ) → 0 < b → n ≤ m → row b n l ≤ row b m l
unfolding row
row-le b n m zero h le = le
row-le b n m (suc l) h le =
    let below = row-le b n m l h le in
    let up = le-group_count b (row b m l) (row b m (suc l)) h (omega arith) in
    group_count-le b (row b n l) (row b m (suc l)) h (omega arith)

-- A row has room for m nodes where the leaves fit into b^l * m.
pub row-le_iff :
    (b n l m : ℕ) → 0 < b → (row b n l ≤ m → n ≤ b ^ l * m) × (n ≤ b ^ l * m → row b n l ≤ m)
unfolding row
row-le_iff b n zero m h =
    let z = pow-zero b in
    (λ le. rw z (omega arith), λ le. let q : n ≤ 1 * m = rw z at le in omega arith)
row-le_iff b n (suc l) m h =
    let ih = row-le_iff b n l (b * m) h in
    let e : b ^ suc l * m ≡ b ^ l * (b * m) =
      ap (λ z. z * m) (pow-suc b l) ∙ mul_assoc (b ^ l) b m in
    (
      λ le. rw e (ih.0 (le-group_count b (row b n l) m h le)),
      λ le. group_count-le b (row b n l) m h (ih.1 (rw e at le)),
    )
