-- ===== src/Consensus/Validator/Votes.antt =====
-- When a validator votes for a proposal, of consensus/validator.go.
use svp_blockchain.Base.{
  ℕ, ◌%◌, ◌^◌, true, false, ltb, ◌==◌, if◌then◌else◌, none, some, [], ◌∷◌, ◌++◌, ◌≡◌, refl, ap, ◌∙◌,
  arith,
}
use svp_blockchain.Base.Bytes.{Bytes, contents}
use svp_blockchain.Core.Result.{ok}
use svp_blockchain.Core.Crypto.{Scheme, PublicKey}
use svp_blockchain.Core.QuorumCert.{QuorumCert, Vote}
use svp_blockchain.Core.Block.{Block, vote_block}
use svp_blockchain.Node.RoleStore.{get_validator_index}
use svp_blockchain.Consensus.Pool.{set_block, get_block, height_of}
use svp_blockchain.Consensus.Tally.{get_vote_quota}
use svp_blockchain.Consensus.Node.{
  Services, Node, M, run_next, vote_to, success, lower_qc, ◌>>=◌, return, or_panic,
}
use svp_blockchain.Consensus.Driver.{
  equal, is_lower, cmp, proposer_of, is_leader, is_new_view_approval, refresh_view,
  get_block_by_hash, find_block, qc_ref_height, cmp_qc_priority,
}
use svp_blockchain.Consensus.Driver.HighQc.{update_qc_high}
use svp_blockchain.Consensus.Validator.{
  verify_block_to_vote, cast_vote, vote_proposal, accept_proposal, receive_proposal,
}

cmp_self : (n : ℕ) → cmp n n ≡ equal
unfolding cmp
cmp_self n = let no : ltb n n ≡ false = ground arith in rw no refl

module _ {W : Type 0} (services : Services W) (scheme : Scheme) (priv : Bytes) (s : Node W)
    (blk certified : Block) (key : PublicKey) (by : proposer_of blk ≡ some key)
    (leads : is_leader key.key_str s ≡ true) (in_view : s.view ≡ blk.block_data.view)
    (settled : s.view_change ≡ success) (highest : blk.quorum_cert ≡ some s.qc_high)
    (known : get_block (contents s.qc_high.qc_data.block_hash) (set_block blk s.pool)
      ≡ some certified) where
  -- the state once the block is in the pool
  entered : Node W
  entered = record s { pool = set_block blk s.pool }

  refresh_view-entered : refresh_view blk entered ≡ some (tt, entered)
  unfolding refresh_view is_new_view_approval entered is_leader
  refresh_view-entered =
      let no : ltb s.view blk.block_data.view ≡ false = ground arith in
      let same_view : (blk.block_data.view == s.view) ≡ true = ground arith in
      let same_leader : (get_validator_index s.roles key.key_str % 2 ^ 32 == s.leader_index)
          ≡ true =
        ground arith in
      rw (by, no, same_view, settled, same_leader) refl

  qc_ref_height-known :
      (u : Node W)
      → get_block (contents s.qc_high.qc_data.block_hash) u.pool ≡ some certified
      → qc_ref_height services s.qc_high u ≡ some (height_of certified, u)
  unfolding qc_ref_height find_block get_block_by_hash
  qc_ref_height-known u e = rw e refl

  qc_ref_height-entered :
      qc_ref_height services s.qc_high entered ≡ some (height_of certified, entered)
  unfolding entered
  qc_ref_height-entered = qc_ref_height-known entered known

  cmp_qc_priority-entered :
      cmp_qc_priority services s.qc_high s.qc_high entered ≡ some (equal, entered)
  unfolding cmp_qc_priority
  cmp_qc_priority-entered =
      let same_view : (s.qc_high.qc_data.view == s.qc_high.qc_data.view) ≡ true = ground arith in
      rw (same_view, qc_ref_height-entered, qc_ref_height-entered, cmp_self (height_of certified))
        refl

  update_qc_high-entered :
      update_qc_high services scheme priv s.qc_high entered ≡ some (tt, entered)
  unfolding update_qc_high entered
  update_qc_high-entered = rw cmp_qc_priority-entered refl

  with_cert :
      {B : Type 0} (f : QuorumCert → M W B) (u : Node W)
      → run_next (or_panic blk.quorum_cert u) f ≡ f s.qc_high u
  with_cert f u = ap (λ o. run_next (or_panic o u) f) highest

  -- the state once the vote is sent
  voted : Vote → Node W
  unfolding entered
  voted vote = record entered {
    world = services.set_txs_pending blk.block_data.transactions s.world;
    sent = s.sent ++ vote_to key vote ∷ [];
  }

  cast_vote-voted :
      (q : ℕ) (vote : Vote)
      → get_vote_quota false (services.random s.world) s.tally ≡ some (some q)
      → vote_block scheme priv q blk ≡ ok vote
      → cast_vote services scheme priv key blk entered ≡ some (none, voted vote)
  unfolding cast_vote entered voted
  cast_vote-voted q vote given made =
      rw (given, made)
        (with_cert (λ qc. qc_ref_height services qc >>= λ logged. return none) (voted vote)
          ∙ rw (qc_ref_height-known (voted vote) known) refl)

  vote_proposal-voted :
      (q : ℕ) (vote : Vote)
      → verify_block_to_vote services blk s ≡ none
      → get_vote_quota false (services.random s.world) s.tally ≡ some (some q)
      → vote_block scheme priv q blk ≡ ok vote
      → vote_proposal services scheme priv blk entered ≡ some (none, voted vote)
  unfolding vote_proposal entered is_leader
  vote_proposal-voted q vote good given made =
      rw (by, leads, verified good) (cast_vote-voted q vote given made)
    where
      verified :
          verify_block_to_vote services blk s ≡ none
          → verify_block_to_vote services blk entered ≡ none
      verified e = e

  -- When a proposal of the leader arrives in the current view, no view change is going on, the proposal
  -- carries the highest certificate of the node, whose block is in the pool, its transactions and
  -- heights are in order, and the window of the node gives a quota, then the handler ends with no error and
  -- the vote of the node with the quota of its window is sent to the leader, whatever was sent before.
  pub receive_proposal_votes :
      (q : ℕ) (vote : Vote)
      → verify_block_to_vote services blk s ≡ none
      → get_vote_quota false (services.random s.world) s.tally ≡ some (some q)
      → vote_block scheme priv q blk ≡ ok vote
      → (t : Node W) × (receive_proposal services scheme priv blk s ≡ some (none, t))
        × (t.sent ≡ s.sent ++ vote_to key vote ∷ [])
  unfolding receive_proposal accept_proposal entered voted
  receive_proposal_votes q vote good given made =
      let ok_view : ltb blk.block_data.view s.view ≡ false = ground arith in
      (
        voted vote,
        rw (refresh_view-entered, ok_view)
            (with_cert
                (λ qc. cmp_qc_priority services qc s.qc_high >>= λ order.
                  if is_lower order
                  then return (some lower_qc)
                  else accept_proposal services scheme priv qc blk)
                entered
              ∙ rw (cmp_qc_priority-entered, update_qc_high-entered)
                  (vote_proposal-voted q vote good given made)),
        refl,
      )
