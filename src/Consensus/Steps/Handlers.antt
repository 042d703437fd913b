-- ===== src/Consensus/Steps/Handlers.antt =====
-- Every handler of a node keeps its highest certificate and its last executed block, or raises them.
use svp_blockchain.Base.{ℕ, false, ◌++◌, [], ◌∷◌, not, ltb, refl}
use svp_blockchain.Base.Bytes.{Bytes, contents}
use svp_blockchain.Core.Crypto.{Scheme, PublicKey, public_key}
use svp_blockchain.Core.QuorumCert.{QuorumCert, Vote, build, validate_vote}
use svp_blockchain.Core.Block.{Block, vote_block}
use svp_blockchain.Consensus.Pool.{hash_of, set_block}
use svp_blockchain.Consensus.Tally.{
  start_proposal, add_vote, end_proposal, get_votes, get_vote_quota,
}
use svp_blockchain.Consensus.Node.{Services, vote_to, proposal}
use svp_blockchain.Consensus.Driver.{
  refresh_view, value_of, proposer_of, is_lower, is_leader, find_block,
}
use svp_blockchain.Consensus.Driver.HighQc.{
  is_vote_enough, count_votes, receive_vote, create_proposal, vote_for_own, propose, proposal_block,
}
use svp_blockchain.Consensus.Rotator.{new_view_proposal, new_proposal}
use svp_blockchain.Consensus.Validator.{
  verify_block_to_vote, cast_vote, vote_proposal, accept_proposal, receive_proposal, on_vote,
}
use svp_blockchain.Consensus.Steps.Keeps.{
  Keeps, Grows, NoLower-refl, Keeps-Grows, Keeps-seq, Grows-seq, Keeps-value, Grows-value, Keeps-if,
  Grows-if, Grows-if_nil, Grows-if_success, Keeps-if_nil, Keeps-then, Grows-then,
  refresh_view-Keeps, find_block-Keeps, qc_ref_height-Keeps, cmp_qc_priority-Keeps,
}
use svp_blockchain.Consensus.Steps.Grows.{update_qc_high-Grows}

module _ {W : Type 0} (services : Services W) (scheme : Scheme) (priv : Bytes) where
  count_votes-Grows : Grows (count_votes services scheme priv)
  unfolding count_votes
  count_votes-Grows s =
      Grows-seq _ _ (Grows-value (is_vote_enough services scheme priv s))
        (λ enough t.
          Grows-if enough _ _
            (λ u.
              Grows-then _ _
                (update_qc_high-Grows services scheme priv (build scheme priv (get_votes t.tally)))
                (λ v. NoLower-refl v) (record u { tally = end_proposal u.tally }))
            (λ u. NoLower-refl u) t)
        s

  receive_vote-Grows : (vote : Vote) → Grows (receive_vote services scheme priv vote)
  unfolding receive_vote
  receive_vote-Grows vote s =
      Grows-if_nil (add_vote vote s.tally).0 _ _
        (λ u.
          Grows-seq _ _
            (Keeps-Grows (find_block services (contents vote.block_hash))
              (find_block-Keeps services (contents vote.block_hash)))
            (λ blk.
              Grows-then (count_votes services scheme priv) _ count_votes-Grows
                (λ v. NoLower-refl v))
            (record u { tally = (add_vote vote s.tally).1 }))
        (λ e u. NoLower-refl u) s

  cast_vote-Keeps :
      (proposer : PublicKey) (blk : Block) → Keeps (cast_vote services scheme priv proposer blk)
  unfolding cast_vote
  cast_vote-Keeps proposer blk s =
      let quota = get_vote_quota false (services.random s.world) s.tally in
      Keeps-seq _ _ (Keeps-value quota)
        (λ given.
          Keeps-if_nil given _ _ (λ t. (refl, refl))
            (λ q. Keeps-seq _ _ (Keeps-value (value_of (vote_block scheme priv q blk))) (λ vote t.
              Keeps-seq _ _ (Keeps-value blk.quorum_cert)
                (λ qc. Keeps-seq _ _ (qc_ref_height-Keeps services qc) (λ logged u. (refl, refl)))
                (record t {
                  world = services.set_txs_pending blk.block_data.transactions t.world;
                  sent = t.sent ++ vote_to proposer vote ∷ [];
                }))))
        s

  vote_proposal-Grows : (blk : Block) → Grows (vote_proposal services scheme priv blk)
  unfolding vote_proposal
  vote_proposal-Grows blk = Keeps-Grows _ (
      Keeps-seq _ _ (Keeps-value (proposer_of blk)) (λ proposer s.
        Keeps-if (not (is_leader proposer.key_str s)) _ _ (λ t. (refl, refl))
          (Keeps-if_nil (verify_block_to_vote services blk s) _ _ (cast_vote-Keeps proposer blk)
            (λ e t. (refl, refl)))
          s))

  accept_proposal-Grows :
      (qc : QuorumCert) (blk : Block) → Grows (accept_proposal services scheme priv qc blk)
  unfolding accept_proposal
  accept_proposal-Grows qc blk =
      Grows-then _ _ (update_qc_high-Grows services scheme priv qc) (vote_proposal-Grows blk)

  pub receive_proposal-Grows : (blk : Block) → Grows (receive_proposal services scheme priv blk)
  unfolding receive_proposal
  receive_proposal-Grows blk s =
      Grows-then (refresh_view blk) _ (Keeps-Grows (refresh_view blk) (refresh_view-Keeps blk))
        (λ t.
          Grows-if (ltb blk.block_data.view t.view) _ _ (λ u. NoLower-refl u)
            (Grows-seq _ _ (Grows-value blk.quorum_cert) (λ qc.
              Grows-seq _ _ (Keeps-Grows _ (cmp_qc_priority-Keeps services qc t.qc_high)) (λ order.
                Grows-if (is_lower order) _ _ (λ u. NoLower-refl u)
                  (accept_proposal-Grows qc blk))))
            t)
        (record s { pool = set_block blk s.pool })

  pub on_vote-Grows : (vote : Vote) → Grows (on_vote services scheme priv vote)
  unfolding on_vote
  on_vote-Grows vote s =
      Grows-if_nil (value_of (validate_vote scheme s.roles vote)) _ _ (λ u. NoLower-refl u)
        (λ checked.
          Grows-if_success s.view_change _ _ (receive_vote-Grows vote) (λ u. NoLower-refl u))
        s

module _ {W : Type 0} (services : Services W) (sha3 : Bytes → Bytes) (scheme : Scheme)
    (priv : Bytes) (block_tx_limit : ℕ) where
  create_proposal-Keeps :
      (view : ℕ) (parent : Block) (qc_high : QuorumCert)
      → Keeps (create_proposal services sha3 scheme priv block_tx_limit view parent qc_high)
  unfolding create_proposal
  create_proposal-Keeps view parent qc_high s =
      let popped = services.pop_txs_from_queue block_tx_limit s.world in
      let blk =
        proposal_block services sha3 scheme priv block_tx_limit view parent qc_high popped.0
          popped.1 in
      Keeps-then (refresh_view blk) _ (refresh_view-Keeps blk)
        (Keeps-seq _ _ (qc_ref_height-Keeps services qc_high) (λ logged t. (refl, refl)))
        (record s {
          world = popped.1;
          pool = set_block blk s.pool;
          b_leaf = blk;
          tally =
              start_proposal (record { hash = hash_of blk; view = blk.block_data.view }) s.tally;
        })

  vote_for_own-Grows :
      (blk : Block) → Grows (vote_for_own services sha3 scheme priv block_tx_limit blk)
  unfolding vote_for_own
  vote_for_own-Grows blk s =
      Grows-seq _ _ (Grows-value (get_vote_quota false (services.random s.world) s.tally))
        (λ given.
          Grows-if_nil given _ _ (λ u. NoLower-refl u)
            (λ q. Grows-seq _ _ (Grows-value (value_of (vote_block scheme priv q blk))) (λ vote.
              Grows-seq _ _ (receive_vote-Grows services scheme priv vote)
                (λ refusal u. NoLower-refl u))))
        s

  propose-Grows : (parent : Block) → Grows (propose services sha3 scheme priv block_tx_limit parent)
  unfolding propose
  propose-Grows parent s =
      Grows-seq _ _ (Keeps-Grows _ (create_proposal-Keeps s.view parent s.qc_high))
        (λ blk t.
          Grows-then _ _ (update_qc_high-Grows services scheme priv s.qc_high)
            (vote_for_own-Grows blk) (record t { sent = t.sent ++ proposal blk ∷ [] }))
        s

  pub new_proposal-Grows : Grows (new_proposal services sha3 scheme priv block_tx_limit)
  unfolding new_proposal
  new_proposal-Grows s =
      Grows-if_success s.view_change _ _
        (Grows-if (is_leader (public_key scheme priv).key_str s) _ _ (propose-Grows s.b_leaf)
          (λ u. NoLower-refl u))
        (λ u. NoLower-refl u) s

  pub new_view_proposal-Grows : Grows (new_view_proposal services sha3 scheme priv block_tx_limit)
  unfolding new_view_proposal
  new_view_proposal-Grows s =
      let hash = contents s.qc_high.qc_data.block_hash in
      Grows-seq _ _ (Keeps-Grows (find_block services hash) (find_block-Keeps services hash))
        propose-Grows s
