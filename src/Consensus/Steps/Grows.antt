-- ===== src/Consensus/Steps/Grows.antt =====
-- No step of a node lowers its highest certificate or its last executed block.
use svp_blockchain.Base.{
  ℕ, zero, suc, ◌≤◌, true, false, none, Bool-cases, inl, inr, ltb, ◌&&◌, ◌==◌, if◌then◌else◌,
  Option, ◌≡◌, refl, ap, ◌∙◌, arith,
}
use svp_blockchain.Base.Bytes.{Bytes, contents, same}
use svp_blockchain.Core.Crypto.{Scheme}
use svp_blockchain.Core.QuorumCert.{QuorumCert, find_vote}
use svp_blockchain.Core.Block.{Block}
use svp_blockchain.Consensus.Pool.{height_of, hash_of}
use svp_blockchain.Consensus.Node.{Services, Node, M, ◌>>=◌, return, read, or_panic}
use svp_blockchain.Consensus.Tally.{update_window}
use svp_blockchain.Consensus.Steps.Logic.{After, After-bind, After-mono, Same}
use svp_blockchain.Consensus.Driver.{
  Priority, is_higher, get_block_by_hash, find_block, qc_ref_height, cmp, cmp_qc_priority,
  on_commit, commit_recursive,
}
use svp_blockchain.Consensus.Driver.HighQc.{enter_qc, raise_qc, update_qc_high, own_key}
use svp_blockchain.Consensus.Steps.Keeps.{
  NoLower, NoLower-refl, NoLower-trans, Grows, Same-NoLower, Keeps-seq, Grows-seq, Keeps-value,
  Grows-value, get_block_by_hash-Keeps, find_block-Keeps, qc_ref_height-Keeps, on_commit-Keeps,
}

module _ {W : Type 0} (services : Services W) where
  -- a commit of a block above the last executed one
  commit_recursive-NoLower :
      (blk : Block) (s : Node W)
      → height_of s.b_exec ≤ height_of blk
      → After (NoLower s) (commit_recursive services blk s)
  unfolding commit_recursive
  commit_recursive-NoLower blk s le =
      After-bind (Same s) (NoLower s) (on_commit services services.stack_room blk) _ s
        (on_commit-Keeps services services.stack_room blk s)
        (λ u t e. let views = ap (λ q. q.qc_data.view) e.0 in (omega (arith, views), le))

  on_commit-breach :
      (room : ℕ) (blk : Block) (s : Node W)
      → ltb (height_of s.b_exec) (height_of blk) ≡ false
      → same (hash_of s.b_exec) (hash_of blk) ≡ false
      → on_commit services room blk s ≡ none
  unfolding on_commit
  on_commit-breach zero blk s c d = refl
  on_commit-breach (suc room) blk s c d = rw (c, d) refl

  -- a commit of any block, where the hash of the executed one stands for its height
  pub commit_any-NoLower :
      (blk : Block) (s : Node W)
      → (same (hash_of s.b_exec) (hash_of blk) ≡ true → height_of s.b_exec ≡ height_of blk)
      → After (NoLower s) (commit_recursive services blk s)
  unfolding commit_recursive
  commit_any-NoLower blk s one = elim (Bool-cases (ltb (height_of s.b_exec) (height_of blk))) [
    | inl c ↦ commit_recursive-NoLower blk s (ground arith)
    | inr c ↦ elim (Bool-cases (same (hash_of s.b_exec) (hash_of blk))) [
      | inl d ↦ let e = one d in commit_recursive-NoLower blk s (omega (arith, e))
      | inr d ↦ rw (on_commit-breach services.stack_room blk s c d) tt
    ]
  ]

  module _ (scheme : Scheme) (priv : Bytes) where
    -- the certificate is set, and the last executed block is still the same
    Enters : QuorumCert → Node W → Node W → Type 0
    Enters qc s t = (qc ≡ t.qc_high) × (s.b_exec ≡ t.b_exec)

    enter_qc-Enters :
        (qc : QuorumCert) (blk1 : Block) (s : Node W)
        → After (Enters qc s) (enter_qc services scheme priv qc blk1 s)
    unfolding enter_qc Enters
    enter_qc-Enters qc blk1 s =
        let own = find_vote (own_key services scheme priv) qc in
        After-bind (Same s) (Enters qc s) (or_panic own) _ s (Keeps-value own s) (λ quota t e.
          let moved = update_window qc.quota quota (height_of blk1) t.tally in
          After-bind (Same t) (Enters qc s) (or_panic moved) _ t (Keeps-value moved t)
            (λ w u d. (refl, e.1 ∙ d.1)))

    commit_parent-Grows :
        (blk0 : Option Block) (blk1 : Block)
        → Grows (do
          parent ← or_panic blk0
          b_exec ← read (λ s. s.b_exec)
          if ltb (height_of b_exec) (height_of parent)
                && (parent.block_data.view == blk1.block_data.view)
              then commit_recursive services parent
              else return tt)
    commit_parent-Grows blk0 blk1 = Grows-seq _ _ (Grows-value blk0) (λ parent s.
        let test =
          ltb (height_of s.b_exec) (height_of parent)
          && (parent.block_data.view == blk1.block_data.view) in
        elim (Bool-cases test) [
          | inl e ↦ rw e (commit_recursive-NoLower parent s (ground arith))
          | inr e ↦ rw e (NoLower-refl s)
        ])

    raise_qc-NoLower :
        (qc : QuorumCert) (s : Node W)
        → s.qc_high.qc_data.view ≤ qc.qc_data.view
        → After (NoLower s) (raise_qc services scheme priv qc s)
    unfolding raise_qc Enters
    raise_qc-NoLower qc s le =
        After-bind (Same s) (NoLower s) (find_block services (contents qc.qc_data.block_hash)) _ s
          (find_block-Keeps services (contents qc.qc_data.block_hash) s)
          (λ blk1 t e.
            After-bind (Same t) (NoLower s) (get_block_by_hash services blk1.block_data.parent_hash)
              _ t (get_block_by_hash-Keeps services blk1.block_data.parent_hash t)
              (λ blk0 u d.
                After-bind (Enters qc u) (NoLower s) (enter_qc services scheme priv qc blk1) _ u
                  (enter_qc-Enters qc blk1 u)
                  (λ done v c.
                    let views = ap (λ q. q.qc_data.view) c.0 in
                    let heights = ap height_of (e.1 ∙ d.1 ∙ c.1) in
                    let so_far : NoLower s v = (omega (arith, le, views), omega (arith, heights)) in
                    After-mono (NoLower v) (NoLower s) _ (λ w r. NoLower-trans s v w so_far r)
                      (commit_parent-Grows blk0 blk1 v))))

    is_higher-cmp : (a b : ℕ) → is_higher (cmp a b) ≡ true → b ≤ a
    unfolding cmp
    is_higher-cmp a b h = ground arith

    raise_if :
        (qc : QuorumCert) (s : Node W) (order : Priority) (t : Node W)
        → (is_higher order ≡ true → s.qc_high.qc_data.view ≤ qc.qc_data.view)
        → Same s t
        → After
            (NoLower s)
            ((if is_higher order then raise_qc services scheme priv qc else return tt) t)
    raise_if qc s order t le e = elim (Bool-cases (is_higher order)) [
      | inr h ↦ rw h (Same-NoLower s t e)
      | inl h ↦
          let views = ap (λ q. q.qc_data.view) e.0 in
          let above = le h in
          rw h (
            After-mono (NoLower t) (NoLower s) (raise_qc services scheme priv qc t)
              (λ u r. NoLower-trans s t u (Same-NoLower s t e) r)
              (raise_qc-NoLower qc t (omega (arith, views, above))))
    ]

    pub update_qc_high-Grows : (qc : QuorumCert) → Grows (update_qc_high services scheme priv qc)
    unfolding update_qc_high cmp_qc_priority
    update_qc_high-Grows qc s = elim (Bool-cases (qc.qc_data.view == s.qc_high.qc_data.view)) [
      | inr e ↦ rw e (
          raise_if qc s (cmp qc.qc_data.view s.qc_high.qc_data.view) s
            (is_higher-cmp qc.qc_data.view s.qc_high.qc_data.view) (refl, refl))
      | inl e ↦
          let le : s.qc_high.qc_data.view ≤ qc.qc_data.view = ground arith in
          let by_height : M W Priority = (do
            h1 ← qc_ref_height services qc
            h2 ← qc_ref_height services s.qc_high
            return (cmp h1 h2)) in
          rw e (
            After-bind (Same s) (NoLower s) by_height _ s
              (Keeps-seq _ _ (qc_ref_height-Keeps services qc)
                (λ h1.
                  Keeps-seq _ _ (qc_ref_height-Keeps services s.qc_high) (λ h2 t. (refl, refl)))
                s)
              (λ order t d. raise_if qc s order t (λ h. le) d))
    ]
