-- ===== src/Execution/BlkExecutor/Determinism.antt =====
-- Nodes that execute one block with different schedules agree.
use svp_blockchain.Base.{ℕ, zero, suc, List, [], ◌∷◌, ◌++◌, ◌≡◌, ◌≢◌, refl, All, ap}
use svp_blockchain.Base.Bytes.{Bytes, Slice}
use svp_blockchain.Execution.Prog.{Outcome, err, timeout}
use svp_blockchain.Execution.Tracker.{Tracker}
use svp_blockchain.Execution.BlkExecutor.Defs.{
  Executor, Txs, start, execute_tx, merge_result, Reach,
}
use svp_blockchain.Execution.BlkExecutor.Dependencies.{bare}
use svp_blockchain.Execution.BlkExecutor.Invariant.{
  Executes, completes, expires, Serial, none_yet, one_more,
}
use svp_blockchain.Execution.BlkExecutor.Serial.{serializable}

abbrev Commits : Type 0
Commits = List (Outcome (Unit {0}))

-- No transaction has timed out.
abbrev pub InTime : List (Outcome (Unit {0})) → Type 0
InTime = All (λ o. o ≢ err timeout)

module _ (store : Bytes → Slice) (txs : Txs) where
  -- The first `n` transactions in order, each on what the earlier ones left.
  unfoldable pub in_order : ℕ → Tracker × List (Outcome (Unit {0}))
  in_order zero = (bare, [])
  in_order (suc n) =
      let before = in_order n in
      let r = execute_tx store before.0 (txs n) in (merge_result before.0 r, before.1 ++ r.0 ∷ [])

InTime-append : (cs ds : Commits) → InTime (cs ++ ds) → InTime cs × InTime ds
InTime-append [] ds h = (tt, h)
InTime-append (c ∷ cs) ds h = let (hc, hd) = InTime-append cs ds h.1 in ((h.0, hc), hd)

module _ (store : Bytes → Slice) (txs : Txs) where
  one_in_order : ℕ → Tracker × Commits → Tracker × Commits
  one_in_order m (root, commits) =
      let r = execute_tx store root (txs m) in (merge_result root r, commits ++ r.0 ∷ [])

  Executes-alone :
      {before : Tracker} {m : ℕ} (r : Outcome (Unit {0}) × Tracker)
      → r.0 ≢ err timeout
      → Executes store before (txs m) r
      → r ≡ execute_tx store before (txs m)
  Executes-alone r h (completes e) = e
  Executes-alone r h (expires e) = absurd (h e)

  Serial-in_order :
      {n : ℕ} {root : Tracker} {commits : Commits}
      → Serial store txs n root commits
      → InTime commits
      → ◌≡◌ {A = Tracker × Commits} (root, commits) (in_order store txs n)
  unfolding in_order one_in_order
  Serial-in_order none_yet h = refl
  Serial-in_order (one_more {m} {before} {earlier} s r x) h =
      let (earlier_in_time, in_time) = InTime-append earlier (r.0 ∷ []) h in
      rw (Executes-alone r in_time.0 x) (ap (one_in_order m) (Serial-in_order s earlier_in_time))

  -- If nothing timed out, the changes of the root tracker and the commits of the merged transactions do
  -- not depend on the schedule: they are those of the execution in order.
  pub deterministic :
      {s : Executor}
      → Reach store txs start s
      → InTime s.tx_commits
      → (s.root_trk ≡ (in_order store txs s.merge_idx).0)
        × (s.tx_commits ≡ (in_order store txs s.merge_idx).1)
  deterministic r h =
      let e = Serial-in_order (serializable store txs r) h in
      (ap (λ (p : Tracker × Commits). p.0) e, ap (λ (p : Tracker × Commits). p.1) e)
