-- ===== src/Consensus/Commit.antt =====
-- `onCommit` and `commitRecursive` of consensus/driver.go: which blocks a commit runs, in which order. The
-- blocks that `getBlockByHash` finds are an argument, and what `commit` does to the storage is not followed.
-- The recursion goes to the parents, on fuel.
pub mod Chain
pub mod Tests
use svp_blockchain.Base.{ℕ, zero, suc, Option, none, some, List, [], ◌∷◌, ◌++◌, ltb, if◌then◌else◌}
use svp_blockchain.Base.Bytes.{Bytes, same}
use svp_blockchain.Core.Block.{Block}
use svp_blockchain.Consensus.Pool.{hash_of, height_of}

-- `done` lists the blocks in the order of their commits. A parent that is not found panics.
pub data Commits : Type 0 where
  done : List Block → Commits
  safety_breached nil_block out_of_fuel : Commits

-- `d.commit(blk)`, after the commits of its ancestors
unfoldable pub and_then : Commits → Block → Commits
and_then (done blocks) blk = done (blocks ++ blk ∷ [])
and_then safety_breached blk = safety_breached
and_then nil_block blk = nil_block
and_then out_of_fuel blk = out_of_fuel

module _ (get_block_by_hash : Bytes → Option Block) (b_exec : Block) where
  unfoldable pub on_commit : ℕ → Block → Commits
  on_commit zero blk = out_of_fuel
  on_commit (suc fuel) blk =
      let earlier : Commits = elim (get_block_by_hash blk.block_data.parent_hash) [
        | none ↦ nil_block
        | some parent ↦ on_commit fuel parent
      ] in
      if ltb (height_of b_exec) (height_of blk)
      then and_then earlier blk
      else if same (hash_of b_exec) (hash_of blk)
      then done []
      else safety_breached

  -- the block that `b_exec` is afterwards
  abbrev pub next_exec : Commits → Block → Block
  next_exec (done blocks) blk = blk
  next_exec safety_breached blk = b_exec
  next_exec nil_block blk = b_exec
  next_exec out_of_fuel blk = b_exec

  unfoldable pub commit_recursive : ℕ → Block → Commits × Block
  unfolding on_commit
  commit_recursive fuel blk = let r = on_commit fuel blk in (r, next_exec r blk)
