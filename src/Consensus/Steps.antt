-- ===== src/Consensus/Steps.antt =====
-- The steps of a consensus node that change its state, each under the lock `mtxUpdate` (or, for the timeouts,
-- in the loop of the timers), and what changes beside the lock, in any order; and the logic for what every
-- step keeps. `onReceiveQC`, which takes the lock twice, is taken as one step.
pub mod Logic
pub mod Keeps
pub mod Grows
pub mod Handlers
pub mod Timeouts
pub mod Tests
use svp_blockchain.Base.{ℕ, true, Option, none, some, ◌≡◌}
use svp_blockchain.Base.Bytes.{Bytes, same}
use svp_blockchain.Core.Crypto.{Scheme}
use svp_blockchain.Core.QuorumCert.{QuorumCert, Vote}
use svp_blockchain.Core.Block.{Block}
use svp_blockchain.Node.RoleStore.{RoleStore}
use svp_blockchain.Consensus.Pool.{Pool, hash_of, height_of}
use svp_blockchain.Consensus.Driver.{commit_recursive}
use svp_blockchain.Consensus.Node.{Services, Node, Refusal}
use svp_blockchain.Consensus.Rotator.{on_leader_timeout, on_view_timeout, receive_qc, new_proposal}
use svp_blockchain.Consensus.Validator.{receive_proposal, on_vote}

module _ {W : Type 0} (services : Services W) (sha3 : Bytes → Bytes) (scheme : Scheme)
    (priv : Bytes) (block_tx_limit : ℕ) where
  pub data Step : Node W → Node W → Type 0 where
    proposal_step :
        {s t : Node W} {e : Option Refusal} (blk : Block)
        → receive_proposal services scheme priv blk s ≡ some (e, t)
        → Step s t
    vote_step :
        {s t : Node W} {e : Option Refusal} (vote : Vote)
        → on_vote services scheme priv vote s ≡ some (e, t)
        → Step s t
    qc_step :
        {s t : Node W} (qc : QuorumCert)
        → receive_qc services sha3 scheme priv block_tx_limit qc s ≡ some (tt, t)
        → Step s t
    propose_step :
        {s t : Node W}
        → new_proposal services sha3 scheme priv block_tx_limit s ≡ some (tt, t)
        → Step s t
    leader_timeout : {s t : Node W} → on_leader_timeout scheme priv s ≡ some (tt, t) → Step s t
    view_timeout : {s t : Node W} → on_view_timeout scheme priv s ≡ some (tt, t) → Step s t
    -- `verifyParentAndCommitRecursive` of a block that was fetched; that it is one above its parent
    -- is not asked for. A block with the hash of the executed one has its height, as the hash covers it.
    sync_step :
        {s t : Node W} (blk : Block)
        → (same (hash_of s.b_exec) (hash_of blk) ≡ true → height_of s.b_exec ≡ height_of blk)
        → commit_recursive services blk s ≡ some (tt, t)
        → Step s t
    -- What happens beside the lock: blocks that are fetched enter the pool, transactions arrive, a
    -- chaincode changes the validators.
    beside :
        {s : Node W} (pool : Pool) (roles : RoleStore) (world : W)
        → Step s (record s { pool = pool; roles = roles; world = world })

  pub data Steps : Node W → Node W → Type 0 where
    here : {s : Node W} → Steps s s
    after : {s t u : Node W} → Step s t → Steps t u → Steps s u
