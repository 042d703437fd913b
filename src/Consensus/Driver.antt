-- ===== src/Consensus/Driver.antt =====
-- consensus/driver.go under the lock `mtxUpdate`, with the flags of consensus/config.go: transactions are
-- executed, not preserved, and the protocol is not the two-phase one. The calls that fetch missing blocks
-- from a peer are not followed. Logs and measurements are left out.
pub mod Fuel
pub mod HighQc
use svp_blockchain.Base.{
  ℕ, zero, suc, ◌+◌, ◌%◌, ◌^◌, Bool, true, false, not, ◌&&◌, Option, none, some, List, [], ◌∷◌,
  length, ltb, leb, ◌==◌, if◌then◌else◌,
}
use svp_blockchain.Base.Bytes.{Bytes, contents, same}
use svp_blockchain.Core.Result.{Result, ok, err}
use svp_blockchain.Core.Crypto.{Scheme, PublicKey, public_key}
use svp_blockchain.Core.QuorumCert.{QuorumCert, Vote, build, find_vote}
use svp_blockchain.Core.Block.{
  Block, new_block, set_view, set_parent_hash, set_height, set_transactions, set_exec_height,
  set_merkle_root, set_timestamp, set_quorum_cert, sign_block, vote_block,
}
use svp_blockchain.Node.RoleStore.{
  is_validator, get_validator_index, majority_validator_count, majority_quota_count,
}
use svp_blockchain.Consensus.Pool.{
  hash_of, height_of, get_block, set_block, set_qc, add_committed_tx_count,
  clean_state_on_committed,
}
use svp_blockchain.Consensus.Tally.{
  add_vote, start_proposal, end_proposal, get_vote_count, get_quota_count, get_votes, update_window,
  get_vote_quota, recover_flag,
}
use svp_blockchain.Consensus.Node.{
  Services, Node, M, success, ongoing, failed, if_nil, proposal, Refusal, bad_vote, ◌>>=◌, ◌>>◌,
  return, modify, read, or_panic, send,
}

-- The signature that `Vote` makes is well formed.
abbrev pub value_of : {A : Type 0} → Result A → Option A
value_of (err e) = none
value_of (ok a) = some a

-- `Proposer` of a block; a nil signature panics.
unfoldable pub proposer_of : Block → Option PublicKey
proposer_of blk = elim blk.signature [ none ↦ none | some sig ↦ some sig.signer ]

-- the three results of `cmpQCPriority`
pub data Priority : Type 0 where
  lower equal higher : Priority

abbrev pub is_higher : Priority → Bool
is_higher lower = false
is_higher equal = false
is_higher higher = true

abbrev pub is_lower : Priority → Bool
is_lower lower = true
is_lower equal = false
is_lower higher = false

unfoldable pub cmp : ℕ → ℕ → Priority
cmp a b = if ltb b a then higher else if ltb a b then lower else equal

module _ {W : Type 0} where
  unfoldable pub is_leader : Bytes → Node W → Bool
  unfolding is_validator get_validator_index
  is_leader key_str s =
      is_validator s.roles key_str
      && (s.leader_index == get_validator_index s.roles key_str % 2 ^ 32)

  unfoldable pub put_queue : Services W → List (List Bytes) → W → W
  put_queue services [] w = w
  put_queue services (txs ∷ rest) w = put_queue services rest (services.put_txs_to_queue txs w)

  -- rotator.go: `isNewViewApproval`
  unfoldable pub is_new_view_approval : ℕ → ℕ → Node W → Bool
  is_new_view_approval view proposer s =
      if ltb s.view view
      then true
      else if view == s.view
      then elim s.view_change [
        | success ↦ not (proposer == s.leader_index)
        | ongoing ↦ proposer == s.leader_index
        | failed ↦ false
      ]
      else false

  unfoldable pub approve_view_leader : ℕ → ℕ → Node W → Node W
  unfolding recover_flag
  approve_view_leader view proposer s = record s {
    view_change = success;
    view = view;
    leader_index = proposer;
    tally = if view == 2 then recover_flag s.tally else s.tally;
    timeout_count = 0;
    high_qc_count = 0;
  }

  -- `onReceiveProposal` of the rotator, less the resets of the timers
  unfoldable pub refresh_view : Block → M W (Unit {0})
  unfolding proposer_of is_new_view_approval approve_view_leader get_validator_index
  refresh_view blk = do
    key ← or_panic (proposer_of blk)
    modify λ s.
        let proposer = get_validator_index s.roles key.key_str % 2 ^ 32 in
        if is_new_view_approval blk.block_data.view proposer s
        then approve_view_leader blk.block_data.view proposer s
        else s

module _ {W : Type 0} (services : Services W) where
  -- the block in the pool or in the storage, which the pool then keeps
  unfoldable pub get_block_by_hash : Bytes → M W (Option Block)
  unfolding get_block set_block
  get_block_by_hash hash = do
    s ← read (λ s. s)
    if_nil (get_block hash s.pool)
        (if_nil (services.get_block s.world hash) (return none)
          λ blk. do modify (λ s. record s { pool = set_block blk s.pool }); return (some blk))
        (λ blk. return (some blk))

  -- where the code goes on with the block, a nil one panics
  unfoldable pub find_block : Bytes → M W Block
  unfolding get_block_by_hash
  find_block hash = do blk ← get_block_by_hash hash; or_panic blk

  unfoldable pub qc_ref_height : QuorumCert → M W ℕ
  unfolding find_block
  qc_ref_height qc = do blk ← find_block (contents qc.qc_data.block_hash); return (height_of blk)

  unfoldable pub cmp_qc_priority : QuorumCert → QuorumCert → M W Priority
  unfolding qc_ref_height cmp
  cmp_qc_priority qc1 qc2 =
      if qc1.qc_data.view == qc2.qc_data.view
      then (do h1 ← qc_ref_height qc1; h2 ← qc_ref_height qc2; return (cmp h1 h2))
      else return (cmp qc1.qc_data.view qc2.qc_data.view)

  -- `commit` with `cleanStateOnCommitted`
  unfoldable pub commit : Block → M W (Unit {0})
  unfolding clean_state_on_committed add_committed_tx_count put_queue
  commit blk = do
    halted ← read (λ s. s.stopped)
    world ← read (λ s. s.world)
    count ← if halted then return (length blk.block_data.transactions) else (do
      done ← or_panic (services.commit_block blk world)
      modify (λ s. record s { world = done.1 })
      return done.0)
    modify λ s.
        let cleaned = clean_state_on_committed blk (add_committed_tx_count count s.pool) in
        record s {
          pool = cleaned.0;
          world =
              put_queue services cleaned.1
                (services.remove_txs blk.block_data.transactions s.world);
        }

  -- `onCommit`, on the room that the stack has for its calls; without any the process ends, as Go's does.
  unfoldable pub on_commit : ℕ → Block → M W (Unit {0})
  unfolding find_block commit
  on_commit zero blk = or_panic none
  on_commit (suc fuel) blk =
      let earlier : M W (Unit {0}) = (do
        parent ← find_block blk.block_data.parent_hash
        on_commit fuel parent) in
      read (λ s. s.b_exec) >>= λ b_exec.
      if ltb (height_of b_exec) (height_of blk)
      then earlier >> commit blk
      else if same (hash_of b_exec) (hash_of blk)
      then return tt
      else or_panic none

  unfoldable pub commit_recursive : Block → M W (Unit {0})
  unfolding on_commit
  commit_recursive blk = do
    on_commit services.stack_room blk
    modify (λ s. record s { b_exec = blk })
