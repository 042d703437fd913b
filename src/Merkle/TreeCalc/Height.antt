-- ===== src/Merkle/TreeCalc/Height.antt =====
-- The height of a tree is the least that has room for its leaves; and where a node stands.
use native.Mathlib.Nat.{
  div-le_of_le-mul, lt_of_mul-lt-mul_left, mul-le-mul_left, div-add-mod, div-add-mod',
  lt-mul-div-succ, pow-zero, pow-succ', mod-lt,
}
use svp_blockchain.Base.{
  ℕ, zero, suc, ◌+◌, ◌*◌, ◌/◌, ◌%◌, ◌^◌, ◌<◌, ◌≤◌, false, Option, some, ltb, ◌≡◌, ap, ◌∙◌, arith,
  inl, inr, Bool-cases,
}
use svp_blockchain.Merkle.TreeCalc.{
  group_count, height_loop, height, first_node_of_group, group_of_node, node_index_in_group,
}

-- `group_count` is division rounded up.
pub group_count-le : (b n m : ℕ) → 0 < b → n ≤ b * m → group_count b n ≤ m
unfolding group_count
group_count-le b n m h le =
    let low = div-le_of_le-mul b le in
    let split = div-add-mod n b in
    elim (Bool-cases (ltb 0 (n % b))) [
      | inl e ↦
          let some_left : 0 < n % b = ground arith in
          let below = lt_of_mul-lt-mul_left b {m = n / b} {n = m} (omega arith) in
          rw e (omega arith)
      | inr e ↦ rw e low
    ]

pub le-group_count : (b n m : ℕ) → 0 < b → group_count b n ≤ m → n ≤ b * m
unfolding group_count
le-group_count b n m h le =
    let split = div-add-mod n b in
    elim (Bool-cases (ltb 0 (n % b))) [
      | inl e ↦
          let room : n / b + 1 ≤ m = rw e at le in
          let more = mul-le-mul_left b room in
          let above = lt-mul-div-succ n {b = b} h in omega arith
      | inr e ↦
          let room : n / b ≤ m = rw e at le in
          let none_left : n % b ≡ 0 = ground arith in
          let more = mul-le-mul_left b room in omega arith
    ]

-- The result counts on from `h` by the least `j` with `n ≤ b ^ j`.
abbrev pub IsLeast : ℕ → ℕ → ℕ → Option ℕ → Type 0
IsLeast b n h r = (j : ℕ) × (r ≡ some (h + j)) × (n ≤ b ^ j) × ((i : ℕ) → i < j → b ^ i < n)

at_once : (b n h : ℕ) → n ≤ 1 → IsLeast b n h (some h)
at_once b n h le =
    (0, ap some (omega arith), omega (arith, le, pow-zero b), λ i lt. absurd (omega (arith, lt)))

one_round :
    (b n h : ℕ) (r : Option ℕ)
    → 2 ≤ b
    → 1 < n
    → IsLeast b (group_count b n) (h + 1) r
    → IsLeast b n h r
one_round b n h r hb big (j, e, room, least) =
    let more : n ≤ b * b ^ j = le-group_count b n (b ^ j) (omega arith) room in
    (suc j, e ∙ ap some (omega arith), omega (arith, more, pow-succ' b j), below)
  where
    below : (i : ℕ) → i < suc j → b ^ i < n
    below zero lt = omega (arith, big, pow-zero b)
    below (suc i) lt = elim (Bool-cases (ltb (b ^ suc i) n)) [
      | inl e ↦ ground arith
      | inr e ↦
          let over : n ≤ b * b ^ i = let s = pow-succ' b i in ground arith in
          let enough = group_count-le b n (b ^ i) (omega arith) over in
          let short = least i (omega arith) in absurd (omega (arith, enough, short))
    ]

height_loop-IsLeast :
    (k fuel b n h : ℕ)
    → 2 ≤ b
    → n ≤ b ^ k
    → k ≤ fuel
    → h + k < 256
    → IsLeast b n h (height_loop fuel b n h)
unfolding height_loop
height_loop-IsLeast zero zero b n h hb le f w =
    let small : ltb 1 n ≡ false = let z = pow-zero b in ground arith in
    rw small (at_once b n h (ground arith))
height_loop-IsLeast (suc k) zero b n h hb le f w = absurd (omega arith)
height_loop-IsLeast zero (suc fuel) b n h hb le f w =
    let small : ltb 1 n ≡ false = let z = pow-zero b in ground arith in
    rw small (at_once b n h (ground arith))
height_loop-IsLeast (suc k) (suc fuel) b n h hb le f w = elim (Bool-cases (ltb 1 n)) [
  | inr e ↦ rw e (at_once b n h (ground arith))
  | inl e ↦
      let split = pow-succ' b k in
      let level = group_count-le b n (b ^ k) (omega arith) (omega arith) in
      let no_wrap : (h + 1) % 256 ≡ h + 1 = omega arith in
      rw (e, no_wrap)
        (one_round b n h (height_loop fuel b (group_count b n) (h + 1)) hb (ground arith) (
          height_loop-IsLeast k fuel b (group_count b n) (h + 1) hb level (omega arith)
            (omega arith)))
]

-- For a branch factor b of 2 or more and at most b^254 leaves, `Height` ends, without a wrap of its
-- counter, at the least height whose tree has room for the leaves: b^(height - 1) is at least the
-- number of leaves, and no smaller power of b is.
pub height-IsLeast : (b nleaf : ℕ) → 2 ≤ b → nleaf ≤ b ^ 254 → IsLeast b nleaf 1 (height b nleaf)
unfolding height
height-IsLeast b nleaf hb le =
    height_loop-IsLeast 254 255 b nleaf 1 hb le (omega arith) (omega arith)

-- For a branch factor of 1 or more, a node is the one at its index in its group, counted from the first
-- node of the group, and the index is within the group.
pub first_node-group_of_node :
    (b node_idx : ℕ)
    → 0 < b
    → (first_node_of_group b (group_of_node b node_idx) + node_index_in_group b node_idx ≡ node_idx)
      × (node_index_in_group b node_idx < b)
unfolding first_node_of_group group_of_node node_index_in_group
first_node-group_of_node b node_idx h = (div-add-mod' node_idx b, mod-lt node_idx h)
