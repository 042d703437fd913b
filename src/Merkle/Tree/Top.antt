-- ===== src/Merkle/Tree/Top.antt =====
-- The top level of the tree of merkle/tree.go, and the writes of `CommitUpdate`.
use svp_blockchain.Base.{
  ℕ, zero, suc, ◌+◌, ◌-◌, ◌^◌, ◌≤◌, ◌<◌, ◌≢◌, inl, inr, Bool-cases, ltb, ◌≡◌, ap, ◌∙◌, arith, none,
  some, List, [], ◌∷◌, All,
}
use svp_blockchain.Base.Bytes.{Bytes, Slice, same}
use svp_blockchain.Base.Assoc.{Assoc, lookup, insert, lookup-insert}
use svp_blockchain.Merkle.TreeCalc.{height}
use svp_blockchain.Merkle.TreeCalc.Height.{group_count-le, IsLeast, height-IsLeast}
use svp_blockchain.Merkle.Position.{Position, position_bytes}
use svp_blockchain.Merkle.Position.Codec.{same-position_bytes}
use svp_blockchain.Merkle.Tree.{Node, update, update_to}
use svp_blockchain.Merkle.Store.{or_nil, put_nodes}
use svp_blockchain.Merkle.Tree.Spec.{row, InTree, row-le_iff}
use svp_blockchain.Merkle.Tree.Update.{Fits}

-- After the writes, a position has the tree's data when it had it before or one of the nodes has the position.
pub put_nodes-Fits :
    (value : ℕ → ℕ → Bytes) (l i : ℕ) (nodes : List Node) (m : Assoc Slice)
    → All (Fits value) nodes
    → (All (λ x. x.position ≢ record { level = l; index = i }) nodes
        → or_nil (lookup (position_bytes (record { level = l; index = i })) m) ≡ some (value l i))
    → or_nil (lookup (position_bytes (record { level = l; index = i })) (put_nodes nodes m))
      ≡ some (value l i)
unfolding put_nodes or_nil
put_nodes-Fits value l i [] m fits h = h tt
put_nodes-Fits value l i (x ∷ rest) m fits h =
    let p : Position = record { level = l; index = i } in
    put_nodes-Fits value l i rest (insert (position_bytes x.position) x.node_data m) fits.1 (λ out.
      rw (lookup-insert (position_bytes x.position) (position_bytes p) x.node_data m)
        (elim (Bool-cases (same (position_bytes x.position) (position_bytes p))) [
          | inl e ↦
              let here = (same-position_bytes x.position p).0 e in
              rw e (fits.0 ∙ ap (λ q. some (value q.level q.index)) here)
          | inr e ↦
              let apart : x.position ≢ p =
                λ w. absurd (let y = (same-position_bytes x.position p).1 w in cc) in
              rw e (h (apart, out))
        ]))

pub small_above : (b n j d : ℕ) → 2 ≤ b → row b n j ≤ 1 → row b n (j + d) ≤ 1
unfolding row
small_above b n j zero hb le = let e : j + 0 ≡ j = omega arith in rw e le
small_above b n j (suc d) hb le =
    let e : j + suc d ≡ suc (j + d) = omega arith in
    let ih = small_above b n j d hb le in
    rw e (group_count-le b (row b n (j + d)) 1 (omega arith) (omega arith))

-- The top level, of one node or none: the height counts the levels up to it.
abbrev pub IsTop : ℕ → ℕ → ℕ → Type 0
IsTop b n top =
    (height b n ≡ some (suc top))
    × (top < 255)
    × (row b n top ≤ 1)
    × ((k : ℕ) → k < top → 1 < row b n k)
    × ((k : ℕ) → InTree b n k → k ≤ top)

pub height-IsTop : (b n : ℕ) → 2 ≤ b → n ≤ b ^ 254 → (top : ℕ) × IsTop b n top
height-IsTop b n hb room = step (height-IsLeast b n hb room)
  where
    step : IsLeast b n 1 (height b n) → (top : ℕ) × IsTop b n top
    step (top, e, fits, least) =
        let small : row b n top ≤ 1 = (row-le_iff b n top 1 (omega arith)).1 (omega arith) in
        (top, (e ∙ ap some (omega arith), bound, small, big, below small))
      where
        bound : top < 255
        bound = elim (Bool-cases (ltb top 255)) [
          | inl e ↦ ground arith
          | inr e ↦ absurd (let x = least 254 (ground arith) in omega (arith, x, room))
        ]

        big : (k : ℕ) → k < top → 1 < row b n k
        big k lt = elim (Bool-cases (ltb 1 (row b n k))) [
          | inl e ↦ ground arith
          | inr e ↦ absurd (
              let x = (row-le_iff b n k 1 (omega arith)).0 (ground arith) in
              let y = least k lt in omega arith)
        ]

        below : row b n top ≤ 1 → (k : ℕ) → InTree b n k → k ≤ top
        below small zero t = omega arith
        below small (suc k) t = elim (Bool-cases (ltb k top)) [
          | inl e ↦ ground arith
          | inr e ↦
              let above = small_above b n top (k - top) hb small in
              let le : top ≤ k = ground arith in
              let same_level : top + (k - top) ≡ k = omega arith in
              let one : row b n k ≤ 1 = rw same_level at above in absurd (omega (arith, one, t))
        ]

pub at_height :
    (hash : Bytes → Bytes) (b : ℕ) (read : Position → Slice) (schedule : List Node → List Node)
    (leaves : List Node) (n h : ℕ)
    → height b n ≡ some h
    → update hash b read schedule leaves n ≡ update_to hash b read schedule h leaves n
unfolding update
at_height hash b read schedule leaves n h e =
    ap (λ o. elim o [ none ↦ none | some k ↦ update_to hash b read schedule k leaves n ]) e
