-- ===== src/Execution/BlkExecutor/Invariant.antt =====
-- What every schedule keeps: a running transaction is on its way to the result that it has over the
-- bare store, unless one of its dependencies has changed since.
use svp_blockchain.Base.{
  ℕ, zero, suc, ◌==◌, ==_iff, true, false, List, [], ◌∷◌, ◌++◌, ◌≡◌, refl, inl, inr, Bool-cases,
}
use svp_blockchain.Base.Bytes.{Bytes, Slice}
use svp_blockchain.Execution.Prog.{Prog, Outcome, ok, err, timeout}
use svp_blockchain.Execution.Tracker.{
  Tracker, new_state_tracker, spawn, set_state, has_dependency_changes, merge,
}
use svp_blockchain.Execution.Tracker.Laws.{key_prefix-merge_changes}
use svp_blockchain.Execution.BlkExecutor.Defs.{
  Worker, idle, running, expired, merged, Executor, Txs, start, set_worker, read, finish,
  execute_tx, merge_result,
}
use svp_blockchain.Execution.BlkExecutor.Dependencies.{
  bare, dependencies-merge, set_state-dependencies, set_state-track_dep, set_dependency-track_dep,
  read-tracker, read-unchanged, dependency_unchanged, dependencies_unchanged,
}

-- One transaction, executed alone over `root`: its own result, or a timeout.
pub data Executes (store : Bytes → Slice) (root : Tracker) (p : Prog (Unit {0}))
    (r : Outcome (Unit {0}) × Tracker) : Type 0 where
  completes : r ≡ execute_tx store root p → Executes store root p r
  expires : r.0 ≡ err timeout → Executes store root p r

-- The first `n` transactions, executed one after the other.
pub data Serial (store : Bytes → Slice) (txs : Txs)
    : ℕ → Tracker → List (Outcome (Unit {0})) → Type 0 where
  none_yet : Serial store txs zero bare []
  one_more :
      {m : ℕ} {before : Tracker} {earlier : List (Outcome (Unit {0}))}
      → Serial store txs m before earlier
      → (r : Outcome (Unit {0}) × Tracker) → Executes store before (txs m) r
      → Serial store txs (suc m) (merge_result before r) (earlier ++ r.0 ∷ [])

module _ (store : Bytes → Slice) where
  pub record OnTrack (root : Tracker) (tx p : Prog (Unit {0})) (trk : Tracker) : Type 0 where
    pub tracks : trk.track_dep ≡ true
    pub same_end :
        has_dependency_changes root trk ≡ false → execute_tx store bare tx ≡ finish store bare p trk

  abbrev pub WorkerOk : Tracker → Prog (Unit {0}) → Worker → Type 0
  WorkerOk root tx idle = Unit {0}
  WorkerOk root tx (running p trk) = OnTrack root tx p trk
  WorkerOk root tx (expired trk) = Unit {0}
  WorkerOk root tx merged = Unit {0}

  pub record Inv (txs : Txs) (s : Executor) : Type 0 where
    pub serial : Serial store txs s.merge_idx s.root_trk s.tx_commits
    pub unprefixed : s.root_trk.key_prefix ≡ []
    pub workers_ok : (i : ℕ) → WorkerOk s.root_trk (txs i) (s.workers i)

  pub start-Inv : (txs : Txs) → Inv txs start
  unfolding start new_state_tracker
  start-Inv txs = record { serial = none_yet; unprefixed = refl; workers_ok = λ i. tt }

  pub started-OnTrack : (root : Tracker) (tx : Prog (Unit {0})) → OnTrack root tx tx (spawn [])
  unfolding execute_tx new_state_tracker
  started-OnTrack root tx = record { tracks = refl; same_end = λ h. refl }

  pub read-OnTrack :
      (root : Tracker) (tx : Prog (Unit {0})) (key : Bytes) (go : Slice → Prog (Unit {0}))
      (trk : Tracker)
      → root.key_prefix ≡ []
      → OnTrack root tx (Prog.get_state key go) trk
      → OnTrack root tx (go (read store root trk key).0) (read store root trk key).1
  unfolding finish
  read-OnTrack root tx key go trk e o =
      let tracked = read-tracker store root trk key in
      record {
        tracks = rw (tracked, set_dependency-track_dep) o.tracks;
        same_end = λ h.
            let safe = rw tracked at h in
            let absent = dependency_unchanged root trk (trk.key_prefix ++ key) o.tracks safe in
            rw (read-unchanged store root trk key e (rw e at absent))
              (o.same_end (dependencies_unchanged root trk (trk.key_prefix ++ key) safe));
      }

  pub write-OnTrack :
      (root : Tracker) (tx : Prog (Unit {0})) (key : Bytes) (value : Slice) (go : Prog (Unit {0}))
      (trk : Tracker)
      → OnTrack root tx (Prog.set_state key value go) trk
      → OnTrack root tx go (set_state key value trk)
  unfolding finish
  write-OnTrack root tx key value go trk o = record {
    tracks = rw set_state-track_dep o.tracks;
    same_end = λ h. o.same_end (rw (← set_state-dependencies root trk key value) h);
  }

  -- A merge can only add to the changes of the root tracker.
  merge-OnTrack :
      (root child : Tracker) (tx p : Prog (Unit {0})) (trk : Tracker)
      → OnTrack root tx p trk
      → OnTrack (merge root child) tx p trk
  merge-OnTrack root child tx p trk o = record {
    tracks = o.tracks;
    same_end = λ h. o.same_end (dependencies-merge root child trk h);
  }

  pub merge_result-WorkerOk :
      (root : Tracker) (r : Outcome (Unit {0}) × Tracker) (tx : Prog (Unit {0})) (w : Worker)
      → WorkerOk root tx w
      → WorkerOk (merge_result root r) tx w
  unfolding merge_result
  merge_result-WorkerOk root r tx idle o = tt
  merge_result-WorkerOk root (ok a, child) tx (running p trk) o =
      merge-OnTrack root child tx p trk o
  merge_result-WorkerOk root (err x, child) tx (running p trk) o = o
  merge_result-WorkerOk root r tx (expired trk) o = tt
  merge_result-WorkerOk root r tx merged o = tt

  pub key_prefix-merge_result :
      (root : Tracker) (r : Outcome (Unit {0}) × Tracker)
      → (merge_result root r).key_prefix ≡ root.key_prefix
  unfolding merge_result merge
  key_prefix-merge_result root (ok a, child) = key_prefix-merge_changes child.changes root
  key_prefix-merge_result root (err x, child) = refl

  pub set_worker-ok :
      (root : Tracker) (txs : Txs) (workers : ℕ → Worker) (i : ℕ) (w : Worker)
      → ((j : ℕ) → WorkerOk root (txs j) (workers j))
      → WorkerOk root (txs i) w
      → (j : ℕ) → WorkerOk root (txs j) (set_worker workers i w j)
  set_worker-ok root txs workers i w all one j = elim (Bool-cases (i == j)) [
    | inl e ↦ rw (e, ← (==_iff i j).0 e) one
    | inr e ↦ rw e (all j)
  ]
