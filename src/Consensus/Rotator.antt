-- ===== src/Consensus/Rotator.antt =====
-- The changes of the view in consensus/rotator.go, and `newProposal` of consensus/pacemaker.go. The timers
-- are left out: a timeout is a step that may come at any time.
use svp_blockchain.Base.{
  ℕ, ◌+◌, ◌%◌, ◌^◌, Bool, ◌&&◌, Option, none, some, length, ltb, leb, ◌==◌, if◌then◌else◌,
}
use svp_blockchain.Base.Bytes.{Bytes, contents, same}
use svp_blockchain.Core.Crypto.{Scheme, public_key}
use svp_blockchain.Core.QuorumCert.{QuorumCert}
use svp_blockchain.Node.RoleStore.{get_validator, majority_validator_count}
use svp_blockchain.Consensus.Driver.{is_leader, find_block, qc_ref_height}
use svp_blockchain.Consensus.Driver.HighQc.{update_qc_high, propose}
use svp_blockchain.Consensus.Node.{
  Services, Node, M, ViewChange, success, ongoing, failed, if_success, qc_to, set_leader, ◌>>=◌,
  ◌>>◌, return, modify, read, or_panic, send,
}

-- `x % uint32(n)`, which panics for a zero `n`
unfoldable pub remainder : ℕ → ℕ → Option ℕ
remainder x n = if n % 2 ^ 32 == 0 then none else some (x % (n % 2 ^ 32))

abbrev pub is_ongoing : ViewChange → Bool
is_ongoing failed = Bool.false
is_ongoing success = Bool.false
is_ongoing ongoing = Bool.true

module _ {W : Type 0} where
  unfoldable pub next_leader : Node W → Option ℕ
  unfolding remainder
  next_leader s = remainder ((s.old_view + 1) % 2 ^ 32) (length s.roles.validators)

  -- the middle of `onReceiveQC`; the log reads the block of the highest certificate.
  unfoldable pub enter_view : Services W → M W (Unit {0})
  unfolding next_leader qc_ref_height
  enter_view services = do
    s ← read (λ s. s)
    if is_ongoing s.view_change && (s.old_view == s.view)
        then (do
          modify (λ s. record s { view = (s.old_view + 1) % 2 ^ 32 })
          index ← or_panic (next_leader s)
          modify (λ s. record s { leader_index = index })
          logged ← qc_ref_height services s.qc_high
          return tt)
        else return tt

module _ {W : Type 0} (scheme : Scheme) (priv : Bytes) where
  -- `changeView`
  unfoldable pub change_view : M W (Unit {0})
  unfolding next_leader get_validator
  change_view = do
    s ← read (λ s. s)
    index ← or_panic (next_leader s)
    leader ← or_panic (get_validator s.roles index)
    if s.old_view == s.view
        then (do
          modify (λ s. record s { view_change = ongoing; high_qc_count = 0 })
          send (set_leader index)
          if same (public_key scheme priv).key leader.key
              then modify (λ s. record s { high_qc_count = s.high_qc_count + 1 })
              else send (qc_to leader s.qc_high))
        else return tt

  unfoldable pub on_leader_timeout : M W (Unit {0})
  unfolding change_view majority_validator_count
  on_leader_timeout = do
    modify (λ s. record s { timeout_count = s.timeout_count + 1; old_view = s.view })
    change_view
    modify λ s.
        if ltb (length s.roles.validators) (s.timeout_count + majority_validator_count s.roles)
        then record s { view_change = failed }
        else s

  unfoldable pub on_view_timeout : M W (Unit {0})
  unfolding change_view
  on_view_timeout = do modify (λ s. record s { old_view = s.view }); change_view

module _ {W : Type 0} (services : Services W) (sha3 : Bytes → Bytes) (scheme : Scheme)
    (priv : Bytes) (block_tx_limit : ℕ) where
  -- `newViewProposal`
  unfoldable pub new_view_proposal : M W (Unit {0})
  unfolding find_block propose
  new_view_proposal = do
    qc_high ← read (λ s. s.qc_high)
    parent ← find_block services (contents qc_high.qc_data.block_hash)
    propose services sha3 scheme priv block_tx_limit parent

  -- `onReceiveQC`, once the certificate is valid and its blocks are there
  unfoldable pub receive_qc : QuorumCert → M W (Unit {0})
  unfolding update_qc_high enter_view is_leader new_view_proposal majority_validator_count
  receive_qc qc = do
    update_qc_high services scheme priv qc
    enter_view services
    modify (λ s. record s { high_qc_count = s.high_qc_count + 1 })
    s ← read (λ s. s)
    if leb (majority_validator_count s.roles) s.high_qc_count
          && is_leader (public_key scheme priv).key_str s
        then new_view_proposal
        else return tt

  -- pacemaker.go: `newProposal`
  unfoldable pub new_proposal : M W (Unit {0})
  unfolding is_leader propose
  new_proposal = do
    s ← read (λ s. s)
    if_success s.view_change
        (if is_leader (public_key scheme priv).key_str s
          then propose services sha3 scheme priv block_tx_limit s.b_leaf
          else return tt)
        (return tt)
