-- ===== src/Consensus/Steps/Timeouts.antt =====
-- The handlers of consensus/rotator.go, and the steps of a node in any order.
use svp_blockchain.Base.{
  ℕ, true, false, length, ◌+◌, ◌%◌, ◌^◌, ◌++◌, [], ◌∷◌, Bool, ltb, leb, ◌&&◌, ◌==◌, if◌then◌else◌,
  Option, some, ◌≡◌, refl,
}
use svp_blockchain.Base.Bytes.{Bytes, same}
use svp_blockchain.Core.Crypto.{Scheme, public_key}
use svp_blockchain.Core.QuorumCert.{QuorumCert}
use svp_blockchain.Node.RoleStore.{get_validator, majority_validator_count}
use svp_blockchain.Consensus.Node.{Services, Node, ongoing, failed, set_leader}
use svp_blockchain.Consensus.Driver.{is_leader}
use svp_blockchain.Consensus.Rotator.{
  next_leader, enter_view, change_view, on_leader_timeout, on_view_timeout, receive_qc, is_ongoing,
}
use svp_blockchain.Consensus.Steps.{
  Step, Steps, proposal_step, vote_step, qc_step, propose_step, leader_timeout, view_timeout, here,
  after, sync_step, beside,
}
use mathlib.Core.Path.{subst}
use svp_blockchain.Consensus.Steps.Logic.{After, Same}
use svp_blockchain.Consensus.Steps.Keeps.{
  Keeps, Grows, NoLower, NoLower-refl, NoLower-trans, Keeps-Grows, Keeps-seq, Keeps-then,
  Grows-then, Keeps-value, Grows-if, Keeps-if, qc_ref_height-Keeps,
}
use svp_blockchain.Consensus.Steps.Grows.{update_qc_high-Grows, commit_any-NoLower}
use svp_blockchain.Consensus.Steps.Handlers.{
  receive_proposal-Grows, on_vote-Grows, new_proposal-Grows, new_view_proposal-Grows,
}

module _ {W : Type 0} (services : Services W) where
  enter_view-Keeps : Keeps (enter_view services)
  unfolding enter_view
  enter_view-Keeps s =
      Keeps-if (is_ongoing s.view_change && (s.old_view == s.view)) _ _
        (λ t.
          Keeps-seq _ _ (Keeps-value (next_leader s))
            (λ index u.
              Keeps-seq _ _ (qc_ref_height-Keeps services s.qc_high) (λ logged v. (refl, refl))
                (record u { leader_index = index }))
            (record t { view = (t.old_view + 1) % 2 ^ 32 }))
        (λ t. (refl, refl)) s

module _ {W : Type 0} (scheme : Scheme) (priv : Bytes) where
  change_view-Keeps : Keeps {W = W} (change_view scheme priv)
  unfolding change_view
  change_view-Keeps s =
      Keeps-seq _ _ (Keeps-value (next_leader s))
        (λ index. Keeps-seq _ _ (Keeps-value (get_validator s.roles index)) (λ leader.
          Keeps-if (s.old_view == s.view) _ _
            (λ t.
              Keeps-if (same (public_key scheme priv).key leader.key) _ _ (λ u. (refl, refl))
                (λ u. (refl, refl))
                (record t {
                  view_change = ongoing;
                  high_qc_count = 0;
                  sent = t.sent ++ set_leader index ∷ [];
                }))
            (λ t. (refl, refl))))
        s

  on_view_timeout-Keeps : Keeps {W = W} (on_view_timeout scheme priv)
  unfolding on_view_timeout
  on_view_timeout-Keeps s = change_view-Keeps (record s { old_view = s.view })

  on_leader_timeout-Keeps : Keeps {W = W} (on_leader_timeout scheme priv)
  unfolding on_leader_timeout
  on_leader_timeout-Keeps s =
      Keeps-then (change_view scheme priv) _ change_view-Keeps
        (λ t.
          keeps_if_state t
            (ltb (length t.roles.validators) (t.timeout_count + majority_validator_count t.roles)))
        (record s { timeout_count = s.timeout_count + 1; old_view = s.view })
    where
      keeps_if_state :
          (t : Node W) (b : Bool)
          → After (Same t) (some (tt, if b then record t { view_change = failed } else t))
      keeps_if_state t true = (refl, refl)
      keeps_if_state t false = (refl, refl)

module _ {W : Type 0} (services : Services W) (sha3 : Bytes → Bytes) (scheme : Scheme)
    (priv : Bytes) (block_tx_limit : ℕ) where
  receive_qc-Grows :
      (qc : QuorumCert) → Grows (receive_qc services sha3 scheme priv block_tx_limit qc)
  unfolding receive_qc
  receive_qc-Grows qc = Grows-then _ _ (update_qc_high-Grows services scheme priv qc) (
      Grows-then (enter_view services) _
        (Keeps-Grows (enter_view services) (enter_view-Keeps services))
        (λ s.
          Grows-if
            (leb (majority_validator_count s.roles) (s.high_qc_count + 1)
              && is_leader (public_key scheme priv).key_str
                  (record s { high_qc_count = s.high_qc_count + 1 }))
            _ _ (new_view_proposal-Grows services sha3 scheme priv block_tx_limit)
            (λ u. NoLower-refl u) (record s { high_qc_count = s.high_qc_count + 1 })))

  ended :
      {A : Type 0} (s t : Node W) (a : A) (o : Option (A × Node W))
      → o ≡ some (a, t)
      → After (NoLower s) o
      → NoLower s t
  ended s t a o e r = subst (After (NoLower s)) e r

  Step-NoLower : (s t : Node W) → Step services sha3 scheme priv block_tx_limit s t → NoLower s t
  Step-NoLower s t (proposal_step {e = r} blk e) =
      ended s t r _ e (receive_proposal-Grows services scheme priv blk s)
  Step-NoLower s t (vote_step {e = r} vote e) =
      ended s t r _ e (on_vote-Grows services scheme priv vote s)
  Step-NoLower s t (qc_step qc e) = ended s t tt _ e (receive_qc-Grows qc s)
  Step-NoLower s t (propose_step e) =
      ended s t tt _ e (new_proposal-Grows services sha3 scheme priv block_tx_limit s)
  Step-NoLower s t (leader_timeout e) =
      ended s t tt _ e (Keeps-Grows _ (on_leader_timeout-Keeps scheme priv) s)
  Step-NoLower s t (view_timeout e) =
      ended s t tt _ e (Keeps-Grows _ (on_view_timeout-Keeps scheme priv) s)
  Step-NoLower s t (sync_step blk one e) = ended s t tt _ e (commit_any-NoLower services blk s one)
  Step-NoLower s t (beside pool roles world) = NoLower-refl s

  -- In any order of proposals, votes, certificates, own proposals, timeouts and commits of fetched blocks,
  -- whatever happens to the pool, the validators and the services in between and whatever the services
  -- answer, the view of the highest certificate of a node and the height of its last executed block
  -- never go down, as long as no fetched block has the hash of the executed one and another height.
  pub Steps-NoLower :
      (s t : Node W) → Steps services sha3 scheme priv block_tx_limit s t → NoLower s t
  Steps-NoLower s t here = NoLower-refl s
  Steps-NoLower s t (after {t = u} step rest) =
      NoLower-trans s u t (Step-NoLower s u step) (Steps-NoLower u t rest)
