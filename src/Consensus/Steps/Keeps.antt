-- ===== src/Consensus/Steps/Keeps.antt =====
-- What keeps the highest certificate and the last executed block of a node, and the rules for it.
use svp_blockchain.Base.{
  ℕ, zero, suc, ◌%◌, ◌^◌, ◌≤◌, Bool, Bool-cases, inl, inr, ltb, ◌==◌, if◌then◌else◌, Option, none,
  Option-cases, refl, ap, arith,
}
use svp_blockchain.Base.Bytes.{Bytes, contents, same}
use svp_blockchain.Core.QuorumCert.{QuorumCert}
use svp_blockchain.Core.Block.{Block}
use svp_blockchain.Node.RoleStore.{get_validator_index}
use svp_blockchain.Consensus.Pool.{height_of, hash_of, get_block}
use svp_blockchain.Consensus.Node.{
  Services, Node, M, ViewChange, if_success, if_nil, ◌>>=◌, ◌>>◌, or_panic,
}
use svp_blockchain.Consensus.Steps.Logic.{
  After-mono, Along, Along-bind, Along-or_panic, Along-if, Along-if_nil, Along-if_success, Same,
  Same-refl, Same-trans,
}
use svp_blockchain.Consensus.Driver.{
  refresh_view, is_new_view_approval, approve_view_leader, proposer_of, get_block_by_hash,
  find_block, qc_ref_height, cmp_qc_priority, commit, on_commit,
}

module _ {W : Type 0} where
  abbrev pub Keeps : {A : Type 0} → M W A → Type 0
  Keeps = Along Same Same-refl Same-trans

  -- The view of the highest certificate and the height of the last executed block are no lower.
  abbrev pub NoLower : Node W → Node W → Type 0
  NoLower s t =
      (s.qc_high.qc_data.view ≤ t.qc_high.qc_data.view) × (height_of s.b_exec ≤ height_of t.b_exec)

  pub NoLower-refl : (s : Node W) → NoLower s s
  NoLower-refl s = (omega arith, omega arith)

  pub NoLower-trans : (s t u : Node W) → NoLower s t → NoLower t u → NoLower s u
  NoLower-trans s t u a b = (omega (arith, a.0, b.0), omega (arith, a.1, b.1))

  abbrev pub Grows : {A : Type 0} → M W A → Type 0
  Grows = Along NoLower NoLower-refl NoLower-trans

  pub Same-NoLower : (s t : Node W) → Same s t → NoLower s t
  Same-NoLower s t e =
      let views = ap (λ q. q.qc_data.view) e.0 in
      let heights = ap height_of e.1 in (omega (arith, views), omega (arith, heights))

  pub Keeps-Grows : {A : Type 0} (m : M W A) → Keeps m → Grows m
  Keeps-Grows m k s = After-mono (Same s) (NoLower s) (m s) (Same-NoLower s) (k s)

  -- the rules of the logic for the two relations
  pub Keeps-seq :
      {A B : Type 0} (m : M W A) (f : A → M W B)
      → Keeps m
      → ((a : A) → Keeps (f a))
      → Keeps (m >>= f)
  Keeps-seq m f = Along-bind Same Same-refl Same-trans m f

  pub Grows-seq :
      {A B : Type 0} (m : M W A) (f : A → M W B)
      → Grows m
      → ((a : A) → Grows (f a))
      → Grows (m >>= f)
  Grows-seq m f = Along-bind NoLower NoLower-refl NoLower-trans m f

  pub Keeps-value : {A : Type 0} (o : Option A) → Keeps (or_panic o)
  Keeps-value = Along-or_panic Same Same-refl Same-trans

  pub Grows-value : {A : Type 0} (o : Option A) → Grows (or_panic o)
  Grows-value = Along-or_panic NoLower NoLower-refl NoLower-trans

  pub Keeps-then :
      {B : Type 0} (m : M W (Unit {0})) (n : M W B) → Keeps m → Keeps n → Keeps (m >> n)
  Keeps-then m n g h = Keeps-seq m (λ u. n) g (λ u. h)

  pub Grows-then :
      {B : Type 0} (m : M W (Unit {0})) (n : M W B) → Grows m → Grows n → Grows (m >> n)
  Grows-then m n g h = Grows-seq m (λ u. n) g (λ u. h)

  pub Keeps-if :
      {A : Type 0} (b : Bool) (m n : M W A) → Keeps m → Keeps n → Keeps (if b then m else n)
  Keeps-if b m n = Along-if Same Same-refl Same-trans b m n

  pub Grows-if :
      {A : Type 0} (b : Bool) (m n : M W A) → Grows m → Grows n → Grows (if b then m else n)
  Grows-if b m n = Along-if NoLower NoLower-refl NoLower-trans b m n

  pub Keeps-if_nil :
      {A B : Type 0} (o : Option A) (m : M W B) (f : A → M W B)
      → Keeps m
      → ((a : A) → Keeps (f a))
      → Keeps (if_nil o m f)
  Keeps-if_nil o m f = Along-if_nil Same Same-refl Same-trans o m f

  pub Grows-if_nil :
      {A B : Type 0} (o : Option A) (m : M W B) (f : A → M W B)
      → Grows m
      → ((a : A) → Grows (f a))
      → Grows (if_nil o m f)
  Grows-if_nil o m f = Along-if_nil NoLower NoLower-refl NoLower-trans o m f

  pub Grows-if_success :
      {B : Type 0} (v : ViewChange) (m n : M W B) → Grows m → Grows n → Grows (if_success v m n)
  Grows-if_success = Along-if_success NoLower NoLower-refl NoLower-trans

  pub refresh_view-Keeps : (blk : Block) → Keeps (refresh_view blk)
  unfolding refresh_view approve_view_leader
  refresh_view-Keeps blk s = elim (Option-cases (proposer_of blk)) [
    | inl e ↦ rw e tt
    | inr (key, e) ↦
        rw e
          (elim (Bool-cases (
            is_new_view_approval blk.block_data.view
              (get_validator_index s.roles key.key_str % 2 ^ 32) s)) [
                | inl h ↦ rw h (refl, refl)
                | inr h ↦ rw h (refl, refl)
              ])
  ]

module _ {W : Type 0} (services : Services W) where
  pub get_block_by_hash-Keeps : (hash : Bytes) → Keeps (get_block_by_hash services hash)
  unfolding get_block_by_hash
  get_block_by_hash-Keeps hash s =
      Keeps-if_nil (get_block hash s.pool) _ _
        (Keeps-if_nil (services.get_block s.world hash) _ _ (λ t. (refl, refl))
          (λ blk t. (refl, refl)))
        (λ blk t. (refl, refl)) s

  pub find_block-Keeps : (hash : Bytes) → Keeps (find_block services hash)
  unfolding find_block
  find_block-Keeps hash = Keeps-seq _ _ (get_block_by_hash-Keeps hash) Keeps-value

  pub qc_ref_height-Keeps : (qc : QuorumCert) → Keeps (qc_ref_height services qc)
  unfolding qc_ref_height
  qc_ref_height-Keeps qc =
      Keeps-seq _ _ (find_block-Keeps (contents qc.qc_data.block_hash)) (λ blk t. (refl, refl))

  pub cmp_qc_priority-Keeps : (qc1 qc2 : QuorumCert) → Keeps (cmp_qc_priority services qc1 qc2)
  unfolding cmp_qc_priority
  cmp_qc_priority-Keeps qc1 qc2 =
      Keeps-if (qc1.qc_data.view == qc2.qc_data.view) _ _
        (Keeps-seq _ _ (qc_ref_height-Keeps qc1)
          (λ h1. Keeps-seq _ _ (qc_ref_height-Keeps qc2) (λ h2 t. (refl, refl))))
        (λ t. (refl, refl))

  commit-Keeps : (blk : Block) → Keeps (commit services blk)
  unfolding commit
  commit-Keeps blk s =
      Keeps-seq _ _
        (Keeps-if s.stopped _ _ (λ t. (refl, refl))
          (Keeps-seq _ _ (Keeps-value (services.commit_block blk s.world))
            (λ done t. (refl, refl))))
        (λ count t. (refl, refl)) s

  pub on_commit-Keeps : (fuel : ℕ) (blk : Block) → Keeps (on_commit services fuel blk)
  unfolding on_commit
  on_commit-Keeps zero blk s = tt
  on_commit-Keeps (suc fuel) blk s =
      Keeps-if (ltb (height_of s.b_exec) (height_of blk)) _ _
        (Keeps-seq _ _
          (Keeps-seq _ _ (find_block-Keeps blk.block_data.parent_hash) (on_commit-Keeps fuel))
          (λ u. commit-Keeps blk))
        (Keeps-if (same (hash_of s.b_exec) (hash_of blk)) _ _ (λ t. (refl, refl))
          (Keeps-value {A = Unit {0}} none))
        s
