-- ===== src/Consensus/Validator/Guards.antt =====
-- What a validator has checked when it votes, of consensus/validator.go.
use svp_blockchain.Base.{ℕ, ◌≤◌, true, false, Option, some, [], ◌∷◌, ◌++◌, ◌≡◌}
use svp_blockchain.Base.Bytes.{Bytes}
use svp_blockchain.Core.Result.{Result, ok}
use svp_blockchain.Core.Crypto.{Scheme, PublicKey}
use svp_blockchain.Core.QuorumCert.{QuorumCert, Vote}
use svp_blockchain.Core.Block.{Block, vote_block}
use svp_blockchain.Consensus.Tally.{get_vote_quota}
use svp_blockchain.Consensus.Node.{Services, Node, vote_to}
use svp_blockchain.Consensus.Driver.{proposer_of, is_leader}
use svp_blockchain.Consensus.Driver.HighQc.{update_qc_high}
use svp_blockchain.Consensus.Validator.Frame.{Framed}
use svp_blockchain.Consensus.Validator.Ends.{Ends}
use svp_blockchain.Consensus.Validator.InOrder.{InOrder}

module _ {W : Type 0} (services : Services W) (scheme : Scheme) (priv : Bytes) (blk : Block) where
  -- One vote, for the block and with the quota of the window, went to its proposer, and the transactions of
  -- the block are pending.
  abbrev pub Sent : Node W → PublicKey → Node W → Type 0
  Sent u key t =
      (q : ℕ) × (vote : Vote) × (get_vote_quota false (services.random u.world) u.tally
        ≡ some (some q))
      × (vote_block scheme priv q blk ≡ ok vote)
      × (t.sent ≡ u.sent ++ vote_to key vote ∷ [])
      × (t.world ≡ services.set_txs_pending blk.block_data.transactions u.world)

  -- At the state `u` the proposer leads and the block is in order, and the vote is sent from there.
  abbrev pub Checked : Node W → Node W → Type 0
  Checked u t =
      (key : PublicKey) × (proposer_of blk ≡ some key)
      × (is_leader key.key_str u ≡ true)
      × InOrder services blk u
      × Sent u key t

  -- The certificate leads from `w` to `u`.
  abbrev pub EnteredAndChecked : QuorumCert → Node W → Node W → Type 0
  EnteredAndChecked qc w t =
      (u : Node W) × (update_qc_high services scheme priv qc w ≡ some (tt, u))
      × Framed w u
      × Checked u t

  -- what the rotator does with the view
  Raised : Node W → Node W → Type 0
  Raised s u =
      (s.view ≤ u.view)
      × (blk.block_data.view ≤ u.view)
      × (u.sent ≡ s.sent)
      × (u.world ≡ s.world)
      × (u.qc_high ≡ s.qc_high)
      × (u.b_exec ≡ s.b_exec)
      × (u.pool.committed_height ≡ s.pool.committed_height)

  -- The certificate of the block is of no lower view than the highest one, and the vote is cast after it was
  -- entered (at `w`, where nothing but the view has changed), in the view of the block.
  abbrev pub Voted : Node W → Node W → Type 0
  Voted s t =
      (s.view ≤ blk.block_data.view)
      × (qc : QuorumCert) × (blk.quorum_cert ≡ some qc)
      × (s.qc_high.qc_data.view ≤ qc.qc_data.view)
      × (w : Node W) × (w.view ≡ blk.block_data.view)
      × (w.sent ≡ s.sent)
      × (w.world ≡ s.world)
      × (w.qc_high ≡ s.qc_high)
      × (w.b_exec ≡ s.b_exec)
      × (w.pool.committed_height ≡ s.pool.committed_height)
      × EnteredAndChecked qc w t
