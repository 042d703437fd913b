-- ===== src/Consensus/Validator.antt =====
-- consensus/validator.go: the handlers of a proposal and of a vote, from the lock `mtxUpdate` on; before it
-- the proposal is validated, and missing blocks and transactions are fetched.
pub mod Votes
pub mod Frame
pub mod Ends
pub mod InOrder
pub mod Guards
use svp_blockchain.Base.{
  ℕ, Bool, true, false, not, ◌&&◌, Option, none, some, List, [], ◌∷◌, ltb, ◌==◌, if◌then◌else◌,
}
use svp_blockchain.Base.Bytes.{Bytes, contents, same}
use svp_blockchain.Core.Result.{ok, err}
use svp_blockchain.Core.Crypto.{Scheme, PublicKey}
use svp_blockchain.Core.QuorumCert.{QuorumCert, Vote, validate_vote}
use svp_blockchain.Core.Block.{Block, vote_block}
use svp_blockchain.Core.Transaction.{Transaction}
use svp_blockchain.Consensus.Pool.{height_of, set_block}
use svp_blockchain.Consensus.Tally.{get_vote_quota}
use svp_blockchain.Consensus.Driver.{
  is_lower, value_of, proposer_of, is_leader, qc_ref_height, cmp_qc_priority, refresh_view,
}
use svp_blockchain.Consensus.Driver.HighQc.{update_qc_high, receive_vote}
use svp_blockchain.Consensus.Node.{
  Services, Node, M, if_nil, if_success, vote_to, Refusal, not_same_view, lower_qc, not_leader,
  invalid_exec_height, invalid_merkle_root, tx_committed, tx_not_found, tx_expired, no_vote,
  in_view_change, bad_vote, ◌>>=◌, ◌>>◌, return, modify, read, or_panic, send, on_world,
}

module _ {W : Type 0} (services : Services W) where
  unfoldable pub is_expired : Transaction → Block → Bool
  is_expired tx blk = not (tx.expiry == 0) && ltb tx.expiry (height_of blk)

  -- `verifyBlockTxs`, over the hashes that are left
  unfoldable pub verify_block_txs : W → Block → List Bytes → Option Refusal
  unfolding is_expired
  verify_block_txs w blk [] = none
  verify_block_txs w blk (hash ∷ rest) =
      let later = verify_block_txs w blk rest in
      if services.has_tx w hash then some tx_committed else elim (services.get_tx w hash) [
        | none ↦ some tx_not_found
        | some tx ↦ if is_expired tx blk then some tx_expired else later
      ]

  unfoldable pub verify_block_to_vote : Block → Node W → Option Refusal
  unfolding verify_block_txs
  verify_block_to_vote blk s =
      let d = blk.block_data in
      let txs = verify_block_txs s.world blk d.transactions in
      if s.pool.committed_height == 0
      then txs
      else if not (services.block_height s.world == d.exec_height)
      then some invalid_exec_height
      else if not (same (contents (services.merkle_root s.world)) d.merkle_root)
      then some invalid_merkle_root
      else txs

module _ {W : Type 0} (services : Services W) (scheme : Scheme) (priv : Bytes) where
  -- the vote of `voteProposal`
  unfoldable pub cast_vote : PublicKey → Block → M W (Option Refusal)
  unfolding get_vote_quota vote_block qc_ref_height
  cast_vote proposer blk = do
    quota ← read (λ s. get_vote_quota false (services.random s.world) s.tally)
    given ← or_panic quota
    if_nil given (return (some no_vote)) λ q. do
      vote ← or_panic (value_of (vote_block scheme priv q blk))
      on_world (services.set_txs_pending blk.block_data.transactions)
      send (vote_to proposer vote)
      qc ← or_panic blk.quorum_cert
      logged ← qc_ref_height services qc
      return none

  unfoldable pub vote_proposal : Block → M W (Option Refusal)
  unfolding proposer_of is_leader verify_block_to_vote cast_vote
  vote_proposal blk = do
    proposer ← or_panic (proposer_of blk)
    s ← read (λ s. s)
    if not (is_leader proposer.key_str s)
        then return (some not_leader)
        else if_nil (verify_block_to_vote services blk s) (cast_vote proposer blk)
            (λ e. return (some e))

  -- what `onReceiveProposal` does when the view and the certificate are high enough
  unfoldable pub accept_proposal : QuorumCert → Block → M W (Option Refusal)
  unfolding update_qc_high vote_proposal
  accept_proposal qc blk = do update_qc_high services scheme priv qc; vote_proposal blk

  unfoldable pub receive_proposal : Block → M W (Option Refusal)
  unfolding set_block refresh_view cmp_qc_priority accept_proposal
  receive_proposal blk = do
    modify (λ s. record s { pool = set_block blk s.pool })
    refresh_view blk
    s ← read (λ s. s)
    if ltb blk.block_data.view s.view then return (some not_same_view) else (do
      qc ← or_panic blk.quorum_cert
      order ← cmp_qc_priority services qc s.qc_high
      if is_lower order then return (some lower_qc) else accept_proposal qc blk)

  -- `onReceiveVote`
  unfoldable pub on_vote : Vote → M W (Option Refusal)
  unfolding validate_vote receive_vote
  on_vote vote = do
    s ← read (λ s. s)
    if_nil (value_of (validate_vote scheme s.roles vote)) (return (some bad_vote)) λ checked.
        if_success s.view_change (receive_vote services scheme priv vote)
          (return (some in_view_change))
