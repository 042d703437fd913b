-- ===== src/Consensus/Driver/Fuel.antt =====
-- The recursion of `onCommit` in consensus/driver.go over the state of a node: it calls itself for the parent
-- of a block until it meets the last executed one.
use svp_blockchain.Base.{ℕ, zero, suc, ◌≤◌, ◌<◌, true, false, ltb, none, some, ◌≡◌, refl, ap, arith}
use svp_blockchain.Core.Block.{Block}
use svp_blockchain.Consensus.Pool.{height_of}
use svp_blockchain.Consensus.Node.{Services, Node, run_next}
use svp_blockchain.Consensus.Driver.{find_block, on_commit, commit}

module _ {W : Type 0} (services : Services W) where
  -- Down to the executed height, each parent that is found is lower than its child.
  pub data Falling : Block → Node W → Type 0 where
    executed :
        {blk : Block} {s : Node W}
        → ltb (height_of s.b_exec) (height_of blk) ≡ false
        → Falling blk s
    missing :
        {blk : Block} {s : Node W}
        → ltb (height_of s.b_exec) (height_of blk) ≡ true
        → find_block services blk.block_data.parent_hash s ≡ none
        → Falling blk s
    parent :
        {blk : Block} {s : Node W} (p : Block) (t : Node W)
        → ltb (height_of s.b_exec) (height_of blk) ≡ true
        → find_block services blk.block_data.parent_hash s ≡ some (p, t)
        → height_of p < height_of blk
        → Falling p t
        → Falling blk s

  -- Where each parent that is found on the way down is lower than its child, the outcome of `onCommit` is the
  -- same for all room on the stack above the height of the block.
  on_commit-fuel :
      (f g : ℕ) (blk : Block) (s : Node W)
      → Falling blk s
      → height_of blk ≤ f
      → height_of blk ≤ g
      → on_commit services (suc f) blk s ≡ on_commit services (suc g) blk s
  unfolding on_commit
  on_commit-fuel f g blk s (executed c) p q = rw c refl
  on_commit-fuel f g blk s (missing c e) p q = rw (c, e) refl
  on_commit-fuel zero g blk s (parent b t c e l r) p q = absurd (omega arith)
  on_commit-fuel (suc f) zero blk s (parent b t c e l r) p q = absurd (omega arith)
  on_commit-fuel (suc f) (suc g) blk s (parent b t c e l r) p q =
      rw (c, e)
        (ap (λ o. run_next o (λ u. commit services blk))
          (on_commit-fuel f g b t r (omega arith) (omega arith)))
