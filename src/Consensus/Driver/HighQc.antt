-- ===== src/Consensus/Driver/HighQc.antt =====
-- `updateQCHigh`, `onReceiveVote` and `createProposal` of consensus/driver.go, and what `newProposal` of
-- consensus/pacemaker.go and `newViewProposal` of consensus/rotator.go have in common.
use svp_blockchain.Base.{
  ℕ, ◌+◌, ◌%◌, ◌^◌, Bool, false, ◌&&◌, Option, none, some, List, ltb, leb, ◌==◌, if◌then◌else◌,
}
use svp_blockchain.Base.Bytes.{Bytes, contents}
use svp_blockchain.Core.Crypto.{Scheme, public_key}
use svp_blockchain.Core.QuorumCert.{QuorumCert, Vote, build, find_vote}
use svp_blockchain.Core.Block.{
  Block, new_block, set_view, set_parent_hash, set_height, set_transactions, set_exec_height,
  set_merkle_root, set_timestamp, set_quorum_cert, sign_block, vote_block,
}
use svp_blockchain.Node.RoleStore.{majority_validator_count, majority_quota_count}
use svp_blockchain.Consensus.Pool.{hash_of, height_of, set_block, set_qc}
use svp_blockchain.Consensus.Tally.{
  add_vote, start_proposal, end_proposal, get_vote_count, get_quota_count, get_votes, update_window,
  get_vote_quota,
}
use svp_blockchain.Consensus.Node.{
  Services, Node, M, if_nil, proposal, Refusal, bad_vote, ◌>>=◌, ◌>>◌, return, modify, read,
  or_panic, send,
}
use svp_blockchain.Consensus.Driver.{
  value_of, is_higher, refresh_view, get_block_by_hash, find_block, qc_ref_height, cmp_qc_priority,
  commit_recursive,
}

module _ {W : Type 0} (services : Services W) (scheme : Scheme) (priv : Bytes) where
  abbrev pub own_key : Bytes
  own_key = (public_key scheme priv).key_str

  -- what `updateQCHigh` sets, with the block of the certificate
  unfoldable pub enter_qc : QuorumCert → Block → M W (Unit {0})
  unfolding set_qc find_vote update_window
  enter_qc qc blk1 = do
    quota ← or_panic (find_vote own_key qc)
    tally ← read (λ s. s.tally)
    moved ← or_panic (update_window qc.quota quota (height_of blk1) tally)
    modify λ s. record s {
      pool = set_qc qc s.pool;
      qc_high = qc;
      b_leaf = blk1;
      tally = moved;
      world = services.store_block blk1 (services.store_qc qc s.world);
    }

  unfoldable pub raise_qc : QuorumCert → M W (Unit {0})
  unfolding find_block get_block_by_hash enter_qc commit_recursive
  raise_qc qc = do
    blk1 ← find_block services (contents qc.qc_data.block_hash)
    blk0 ← get_block_by_hash services blk1.block_data.parent_hash
    enter_qc qc blk1
    parent ← or_panic blk0
    b_exec ← read (λ s. s.b_exec)
    if ltb (height_of b_exec) (height_of parent) && (parent.block_data.view == blk1.block_data.view)
        then commit_recursive services parent
        else return tt

  -- `updateQCHigh`
  unfoldable pub update_qc_high : QuorumCert → M W (Unit {0})
  unfolding cmp_qc_priority raise_qc
  update_qc_high qc = do
    high ← read (λ s. s.qc_high)
    order ← cmp_qc_priority services qc high
    if is_higher order then raise_qc qc else return tt

  unfoldable pub is_vote_enough : Node W → Option Bool
  unfolding get_vote_count get_quota_count majority_validator_count majority_quota_count
  is_vote_enough s =
      if ltb (get_vote_count s.tally) (majority_validator_count s.roles)
      then some false
      else elim (get_quota_count s.tally) [
        | none ↦ none
        | some quotas ↦ some (leb (majority_quota_count s.roles) quotas)
      ]

  -- the end of `onReceiveVote`: a certificate is built when the votes are enough.
  unfoldable pub count_votes : M W (Unit {0})
  unfolding is_vote_enough build get_votes end_proposal update_qc_high
  count_votes = do
    verdict ← read is_vote_enough
    enough ← or_panic verdict
    votes ← read (λ s. get_votes s.tally)
    if enough
        then (do
          modify (λ s. record s { tally = end_proposal s.tally })
          update_qc_high (build scheme priv votes)
          modify (λ s. record s { signals = s.signals + 1 }))
        else return tt

  -- `onReceiveVote`
  unfoldable pub receive_vote : Vote → M W (Option Refusal)
  unfolding add_vote find_block count_votes
  receive_vote vote = do
    added ← read (λ s. add_vote vote s.tally)
    if_nil added.0
        (do
          modify (λ s. record s { tally = added.1 })
          blk ← find_block services (contents vote.block_hash)
          count_votes
          return none)
        (λ e. return (some bad_vote))

module _ {W : Type 0} (services : Services W) (sha3 : Bytes → Bytes) (scheme : Scheme)
    (priv : Bytes) (block_tx_limit : ℕ) where
  -- the block that `createProposal` signs
  unfoldable pub proposal_block : ℕ → Block → QuorumCert → List Bytes → W → Block
  unfolding new_block set_view set_parent_hash set_height set_transactions set_exec_height
      set_merkle_root set_timestamp set_quorum_cert sign_block
  proposal_block view parent qc_high txs w = sign_block sha3 scheme priv (
      set_quorum_cert qc_high (
        set_timestamp (services.now w) (
          set_merkle_root (contents (services.merkle_root w)) (
            set_exec_height (services.block_height w) (
              set_transactions txs (
                set_height ((height_of parent + 1) % 2 ^ 64)
                  (set_parent_hash (hash_of parent) (set_view view new_block))))))))

  -- `createProposal`
  unfoldable pub create_proposal : ℕ → Block → QuorumCert → M W Block
  unfolding proposal_block set_block start_proposal refresh_view qc_ref_height
  create_proposal view parent qc_high = do
    popped ← read (λ s. services.pop_txs_from_queue block_tx_limit s.world)
    modify (λ s. record s { world = popped.1 })
    blk ← read (λ s. proposal_block view parent qc_high popped.0 s.world)
    modify λ s. record s {
      pool = set_block blk s.pool;
      b_leaf = blk;
      tally = start_proposal (record { hash = hash_of blk; view = blk.block_data.view }) s.tally;
    }
    refresh_view blk
    logged ← qc_ref_height services qc_high
    return blk

  -- The node's vote for its own block, in `newProposal` and `newViewProposal`
  unfoldable pub vote_for_own : Block → M W (Unit {0})
  unfolding get_vote_quota vote_block receive_vote
  vote_for_own blk = do
    quota ← read (λ s. get_vote_quota false (services.random s.world) s.tally)
    given ← or_panic quota
    if_nil given (return tt) λ q. do
      vote ← or_panic (value_of (vote_block scheme priv q blk))
      refusal ← receive_vote services scheme priv vote
      return tt

  -- what `newProposal` and `newViewProposal` do once the parent is known
  unfoldable pub propose : Block → M W (Unit {0})
  unfolding create_proposal update_qc_high vote_for_own
  propose parent = do
    view ← read (λ s. s.view)
    qc_high ← read (λ s. s.qc_high)
    blk ← create_proposal view parent qc_high
    send (proposal blk)
    update_qc_high services scheme priv qc_high
    vote_for_own blk
