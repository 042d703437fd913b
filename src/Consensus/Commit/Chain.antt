-- ===== src/Consensus/Commit/Chain.antt =====
-- A commit runs a chain of blocks from the last executed one, each after its parent.
use svp_blockchain.Base.{
  ℕ, zero, suc, ◌<◌, Option, some, List, [], ◌∷◌, ◌++◌, ltb, ◌≡◌, refl, arith, inl, inr, Bool-cases,
  Option-cases,
}
use svp_blockchain.Base.Bytes.{Bytes, same, eq_of_same}
use svp_blockchain.Core.Block.{Block}
use svp_blockchain.Consensus.Pool.{hash_of, height_of}
use svp_blockchain.Consensus.Commit
use svp_blockchain.Consensus.Commit.{
  Commits, done, safety_breached, nil_block, out_of_fuel, and_then, on_commit, commit_recursive,
}

module _ (get_block_by_hash : Bytes → Option Block) (b_exec : Block) where
  -- The blocks lead from the executed one to the last one, each to its child.
  pub data Chain : List Block → Block → Type 0 where
    executed : (blk : Block) → hash_of b_exec ≡ hash_of blk → Chain [] blk
    extended :
        {blocks : List Block} {parent : Block} (blk : Block)
        → get_block_by_hash blk.block_data.parent_hash ≡ some parent
        → height_of b_exec < height_of blk
        → Chain blocks parent
        → Chain (blocks ++ blk ∷ []) blk

  abbrev pub Chains : Block → Commits → Type 0
  Chains blk (done blocks) = Chain blocks blk
  Chains blk safety_breached = Unit {0}
  Chains blk nil_block = Unit {0}
  Chains blk out_of_fuel = Unit {0}

  and_then-Chains :
      (parent blk : Block) (r : Commits)
      → get_block_by_hash blk.block_data.parent_hash ≡ some parent
      → height_of b_exec < height_of blk
      → Chains parent r
      → Chains blk (and_then r blk)
  unfolding and_then
  and_then-Chains parent blk (done blocks) e h c = extended blk e h c
  and_then-Chains parent blk safety_breached e h c = tt
  and_then-Chains parent blk nil_block e h c = tt
  and_then-Chains parent blk out_of_fuel e h c = tt

  on_commit-Chains :
      (fuel : ℕ) (blk : Block) → Chains blk (on_commit get_block_by_hash b_exec fuel blk)
  unfolding on_commit
  on_commit-Chains zero blk = tt
  on_commit-Chains (suc fuel) blk = elim (Bool-cases (ltb (height_of b_exec) (height_of blk))) [
    | inl h ↦ elim (Option-cases (get_block_by_hash blk.block_data.parent_hash)) [
      | inl e ↦ rw (h, e) (unfold and_then in tt)
      | inr (parent, e) ↦
          rw (h, e)
            (and_then-Chains parent blk (on_commit get_block_by_hash b_exec fuel parent) e
              (ground arith) (on_commit-Chains fuel parent))
    ]
    | inr h ↦ elim (Bool-cases (same (hash_of b_exec) (hash_of blk))) [
      | inl e ↦ rw (h, e) (executed blk (eq_of_same (hash_of b_exec) (hash_of blk) e))
      | inr e ↦ rw (h, e) tt
    ]
  ]

  -- The parent of a block above the executed one is found, and is one height below it.
  abbrev pub HasParent : Block → Type 0
  HasParent blk =
      (parent : Block) × (get_block_by_hash blk.block_data.parent_hash ≡ some parent)
      × (suc (height_of parent) ≡ height_of blk)

  abbrev pub Decided : Commits → Type 0
  Decided (done blocks) = Unit {0}
  Decided safety_breached = Unit {0}
  Decided nil_block = ⊥
  Decided out_of_fuel = ⊥

  and_then-Decided : (r : Commits) (blk : Block) → Decided r → Decided (and_then r blk)
  unfolding and_then
  and_then-Decided (done blocks) blk d = tt
  and_then-Decided safety_breached blk d = tt
  and_then-Decided nil_block blk d = d
  and_then-Decided out_of_fuel blk d = d

  on_commit-Decided :
      (fuel : ℕ) (blk : Block)
      → ((hash : Bytes) (b : Block)
          → get_block_by_hash hash ≡ some b
          → height_of b_exec < height_of b
          → HasParent b)
      → (height_of b_exec < height_of blk → HasParent blk)
      → height_of blk < fuel
      → Decided (on_commit get_block_by_hash b_exec fuel blk)
  unfolding on_commit
  on_commit-Decided zero blk p q f = absurd (omega arith)
  on_commit-Decided (suc fuel) blk p q f =
      elim (Bool-cases (ltb (height_of b_exec) (height_of blk))) [
        | inl h ↦
            let (parent, found, below) = q (ground arith) in
            rw (h, found)
              (and_then-Decided (on_commit get_block_by_hash b_exec fuel parent) blk (
                on_commit-Decided fuel parent p (p blk.block_data.parent_hash parent found)
                  (omega arith)))
        | inr h ↦ elim (Bool-cases (same (hash_of b_exec) (hash_of blk))) [
          | inl e ↦ rw (h, e) tt
          | inr e ↦ rw (h, e) tt
        ]
      ]

  -- What a commit may end in: the chain is committed and its last block is the executed one, or the
  -- breach is found and nothing has changed.
  abbrev pub CommitsOrBreaches : Block → Commits × Block → Type 0
  CommitsOrBreaches blk (done blocks, now) = Chain blocks blk × (now ≡ blk)
  CommitsOrBreaches blk (safety_breached, now) = now ≡ b_exec
  CommitsOrBreaches blk (nil_block, now) = ⊥
  CommitsOrBreaches blk (out_of_fuel, now) = ⊥

  ends :
      (blk : Block) (r : Commits)
      → Chains blk r
      → Decided r
      → CommitsOrBreaches blk (r, Commit.next_exec get_block_by_hash b_exec r blk)
  ends blk (done blocks) c d = (c, refl)
  ends blk safety_breached c d = refl
  ends blk nil_block c d = d
  ends blk out_of_fuel c d = d

  -- If every known block above the executed one has a known parent one height below, and so has the block
  -- to commit, then `commitRecursive`, with more fuel than its height, ends: either it has committed a
  -- chain of blocks that starts after the executed one, each after its parent, and the last of which is
  -- now the executed one, or it has found a breach of safety and committed nothing.
  pub commit_recursive-CommitsOrBreaches :
      (fuel : ℕ) (blk : Block)
      → ((hash : Bytes) (b : Block)
          → get_block_by_hash hash ≡ some b
          → height_of b_exec < height_of b
          → HasParent b)
      → (height_of b_exec < height_of blk → HasParent blk)
      → height_of blk < fuel
      → CommitsOrBreaches blk (commit_recursive get_block_by_hash b_exec fuel blk)
  unfolding commit_recursive
  commit_recursive-CommitsOrBreaches fuel blk p q f =
      ends blk (on_commit get_block_by_hash b_exec fuel blk) (on_commit-Chains fuel blk)
        (on_commit-Decided fuel blk p q f)
