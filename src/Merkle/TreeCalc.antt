-- ===== src/Merkle/TreeCalc.antt =====
-- merkle/tree_calc.go: the shape of a tree. A branch factor of 0 divides by zero in Go, and one of 1 never
-- ends in `Height`; the theorems take a factor of 2 or more. The loop of `Height` runs at most 255
-- rounds here, which is as far as its uint8 counts.
pub mod Height
use svp_blockchain.Base.{ℕ, zero, suc, ◌+◌, ◌*◌, ◌/◌, ◌%◌, Option, none, some, ltb, if◌then◌else◌}

unfoldable pub group_count : ℕ → ℕ → ℕ
group_count bfactor node_count =
    if ltb 0 (node_count % bfactor) then node_count / bfactor + 1 else node_count / bfactor

-- `none`: out of fuel
unfoldable pub height_loop : ℕ → ℕ → ℕ → ℕ → Option ℕ
unfolding group_count
height_loop zero bfactor node_count h = if ltb 1 node_count then none else some h
height_loop (suc fuel) bfactor node_count h =
    let rest = height_loop fuel bfactor (group_count bfactor node_count) ((h + 1) % 256) in
    if ltb 1 node_count then rest else some h

unfoldable pub height : ℕ → ℕ → Option ℕ
unfolding height_loop
height bfactor nleaf = height_loop 255 bfactor nleaf 1

unfoldable pub first_node_of_group : ℕ → ℕ → ℕ
first_node_of_group bfactor blk_idx = blk_idx * bfactor

unfoldable pub group_of_node : ℕ → ℕ → ℕ
group_of_node bfactor node_idx = node_idx / bfactor

unfoldable pub node_index_in_group : ℕ → ℕ → ℕ
node_index_in_group bfactor node_idx = node_idx % bfactor
