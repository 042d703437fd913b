-- ===== src/Consensus/Validator/Frame.antt =====
-- What reading blocks, committing and entering a certificate (consensus/driver.go) leave as it is.
use svp_blockchain.Base.{
  ℕ, zero, suc, Bool, ltb, ◌&&◌, ◌==◌, if◌then◌else◌, Option, none, ◌≡◌, refl, ◌∙◌,
}
use svp_blockchain.Base.Bytes.{Bytes, contents, same}
use svp_blockchain.Core.Crypto.{Scheme}
use svp_blockchain.Core.QuorumCert.{QuorumCert, find_vote}
use svp_blockchain.Core.Block.{Block}
use svp_blockchain.Consensus.Pool.{height_of, hash_of, get_block, set_block}
use svp_blockchain.Consensus.Tally.{update_window}
use svp_blockchain.Consensus.Node.{Services, Node, M, if_nil, ◌>>=◌, or_panic}
use svp_blockchain.Consensus.Driver.{
  is_higher, get_block_by_hash, find_block, qc_ref_height, cmp_qc_priority, commit, on_commit,
  commit_recursive,
}
use svp_blockchain.Consensus.Driver.HighQc.{own_key, enter_qc, raise_qc, update_qc_high}
use svp_blockchain.Consensus.Steps.Logic.{
  After-mono, Along, Along-bind, Along-if, Along-if_nil, Along-or_panic,
}

module _ {W : Type 0} where
  -- The view, the leader, the validators and what was sent are the same.
  abbrev pub Framed : Node W → Node W → Type 0
  Framed s t =
      (t.view ≡ s.view)
      × (t.leader_index ≡ s.leader_index)
      × (t.roles ≡ s.roles)
      × (t.sent ≡ s.sent)

  pub Framed-refl : (s : Node W) → Framed s s
  Framed-refl s = (refl, refl, refl, refl)

  pub Framed-trans : (s t u : Node W) → Framed s t → Framed t u → Framed s u
  Framed-trans s t u a b = (b.0 ∙ a.0, b.1 ∙ a.1, b.2 ∙ a.2, b.3 ∙ a.3)

  abbrev pub Frames : {A : Type 0} → M W A → Type 0
  Frames = Along Framed Framed-refl Framed-trans

  pub Frames-seq :
      {A B : Type 0} (m : M W A) (f : A → M W B)
      → Frames m
      → ((a : A) → Frames (f a))
      → Frames (m >>= f)
  Frames-seq = Along-bind Framed Framed-refl Framed-trans

  Frames-if :
      {A : Type 0} (b : Bool) (m n : M W A) → Frames m → Frames n → Frames (if b then m else n)
  Frames-if = Along-if Framed Framed-refl Framed-trans

  Frames-if_nil :
      {A B : Type 0} (o : Option A) (m : M W B) (f : A → M W B)
      → Frames m
      → ((a : A) → Frames (f a))
      → Frames (if_nil o m f)
  Frames-if_nil = Along-if_nil Framed Framed-refl Framed-trans

  Frames-value : {A : Type 0} (o : Option A) → Frames (or_panic o)
  Frames-value = Along-or_panic Framed Framed-refl Framed-trans

-- What reading a block leaves, which may bring it into the pool
module _ {W : Type 0} where
  abbrev pub Looked : Node W → Node W → Type 0
  Looked s t =
      Framed s t
      × (t.world ≡ s.world)
      × (t.qc_high ≡ s.qc_high)
      × (t.b_exec ≡ s.b_exec)
      × (t.pool.committed_height ≡ s.pool.committed_height)

  pub Looked-refl : (s : Node W) → Looked s s
  Looked-refl s = (Framed-refl s, refl, refl, refl, refl)

  pub Looked-trans : (s t u : Node W) → Looked s t → Looked t u → Looked s u
  Looked-trans s t u a b = (Framed-trans s t u a.0 b.0, b.1 ∙ a.1, b.2 ∙ a.2, b.3 ∙ a.3, b.4 ∙ a.4)

  abbrev pub Looks : {A : Type 0} → M W A → Type 0
  Looks = Along Looked Looked-refl Looked-trans

  pub Looks-seq :
      {A B : Type 0} (m : M W A) (f : A → M W B)
      → Looks m
      → ((a : A) → Looks (f a))
      → Looks (m >>= f)
  Looks-seq = Along-bind Looked Looked-refl Looked-trans

  Looks-if_nil :
      {A B : Type 0} (o : Option A) (m : M W B) (f : A → M W B)
      → Looks m
      → ((a : A) → Looks (f a))
      → Looks (if_nil o m f)
  Looks-if_nil = Along-if_nil Looked Looked-refl Looked-trans

  Looks-Frames : {A : Type 0} (m : M W A) → Looks m → Frames m
  Looks-Frames m l s = After-mono (Looked s) (Framed s) (m s) (λ t x. x.0) (l s)

module _ {W : Type 0} (services : Services W) where
  get_block_by_hash-Looks : (hash : Bytes) → Looks (get_block_by_hash services hash)
  unfolding get_block_by_hash set_block
  get_block_by_hash-Looks hash s =
      Looks-if_nil (get_block hash s.pool) _ _
        (Looks-if_nil (services.get_block s.world hash) _ _ Looked-refl (λ blk t. Looked-refl t))
        (λ blk t. Looked-refl t) s

  find_block-Looks : (hash : Bytes) → Looks (find_block services hash)
  unfolding find_block
  find_block-Looks hash =
      Looks-seq _ _ (get_block_by_hash-Looks hash) (Along-or_panic Looked Looked-refl Looked-trans)

  pub qc_ref_height-Looks : (qc : QuorumCert) → Looks (qc_ref_height services qc)
  unfolding qc_ref_height
  qc_ref_height-Looks qc =
      Looks-seq _ _ (find_block-Looks (contents qc.qc_data.block_hash)) (λ blk t. Looked-refl t)

  pub cmp_qc_priority-Looks : (qc1 qc2 : QuorumCert) → Looks (cmp_qc_priority services qc1 qc2)
  unfolding cmp_qc_priority
  cmp_qc_priority-Looks qc1 qc2 =
      Along-if Looked Looked-refl Looked-trans (qc1.qc_data.view == qc2.qc_data.view) _ _
        (Looks-seq _ _ (qc_ref_height-Looks qc1)
          (λ h1. Looks-seq _ _ (qc_ref_height-Looks qc2) (λ h2 t. Looked-refl t)))
        Looked-refl

  get_block_by_hash-Frames : (hash : Bytes) → Frames (get_block_by_hash services hash)
  get_block_by_hash-Frames hash = Looks-Frames _ (get_block_by_hash-Looks hash)

  find_block-Frames : (hash : Bytes) → Frames (find_block services hash)
  find_block-Frames hash = Looks-Frames _ (find_block-Looks hash)

  cmp_qc_priority-Frames : (qc1 qc2 : QuorumCert) → Frames (cmp_qc_priority services qc1 qc2)
  cmp_qc_priority-Frames qc1 qc2 = Looks-Frames _ (cmp_qc_priority-Looks qc1 qc2)

  commit-Frames : (blk : Block) → Frames (commit services blk)
  unfolding commit
  commit-Frames blk s =
      Frames-seq _ _
        (Frames-if s.stopped _ _ Framed-refl (
          Frames-seq _ _ (Frames-value (services.commit_block blk s.world))
            (λ done t. Framed-refl t)))
        (λ count t. Framed-refl t) s

  on_commit-Frames : (fuel : ℕ) (blk : Block) → Frames (on_commit services fuel blk)
  unfolding on_commit
  on_commit-Frames zero blk s = tt
  on_commit-Frames (suc fuel) blk s =
      Frames-if (ltb (height_of s.b_exec) (height_of blk)) _ _
        (Frames-seq _ _
          (Frames-seq _ _ (find_block-Frames blk.block_data.parent_hash) (on_commit-Frames fuel))
          (λ u. commit-Frames blk))
        (Frames-if (same (hash_of s.b_exec) (hash_of blk)) _ _ Framed-refl
          (Frames-value {A = Unit {0}} none))
        s

  commit_recursive-Frames : (blk : Block) → Frames (commit_recursive services blk)
  unfolding commit_recursive
  commit_recursive-Frames blk =
      Frames-seq _ _ (on_commit-Frames services.stack_room blk) (λ u t. Framed-refl t)

  module _ (scheme : Scheme) (priv : Bytes) where
    enter_qc-Frames :
        (qc : QuorumCert) (blk1 : Block) → Frames (enter_qc services scheme priv qc blk1)
    unfolding enter_qc
    enter_qc-Frames qc blk1 =
        Frames-seq _ _ (Frames-value (find_vote (own_key services scheme priv) qc)) (λ quota s.
          Frames-seq _ _ (Frames-value (update_window qc.quota quota (height_of blk1) s.tally))
            (λ moved t. Framed-refl t) s)

    raise_qc-Frames : (qc : QuorumCert) → Frames (raise_qc services scheme priv qc)
    unfolding raise_qc
    raise_qc-Frames qc =
        Frames-seq _ _ (find_block-Frames (contents qc.qc_data.block_hash)) (λ blk1.
          Frames-seq _ _ (get_block_by_hash-Frames blk1.block_data.parent_hash) (λ blk0.
            Frames-seq _ _ (enter_qc-Frames qc blk1) (λ entered.
              Frames-seq _ _ (Frames-value blk0) (λ parent s.
                Frames-if
                  (ltb (height_of s.b_exec) (height_of parent)
                    && (parent.block_data.view == blk1.block_data.view))
                  _ _ (commit_recursive-Frames parent) Framed-refl s))))

    pub update_qc_high-Frames : (qc : QuorumCert) → Frames (update_qc_high services scheme priv qc)
    unfolding update_qc_high
    update_qc_high-Frames qc s =
        Frames-seq _ _ (cmp_qc_priority-Frames qc s.qc_high)
          (λ order. Frames-if (is_higher order) _ _ (raise_qc-Frames qc) Framed-refl) s
