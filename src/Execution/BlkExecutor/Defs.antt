-- ===== src/Execution/BlkExecutor/Defs.antt =====
-- The state of `blkExecutor` and its steps. `txs i` is the i-th transaction as its chaincode;
-- past the end of a block it may be anything, and a schedule of the block starts none of these.
use svp_blockchain.Base.{
  ℕ, suc, ◌==◌, true, false, Option, none, some, List, [], ◌∷◌, ◌++◌, ◌≡◌, if◌then◌else◌,
}
use svp_blockchain.Base.Bytes.{Bytes, Slice}
use svp_blockchain.Execution.Prog.{Prog, pure, raise, Outcome, ok, err, timeout}
use svp_blockchain.Execution.Tracker.{
  Tracker, new_state_tracker, spawn, get_state, set_state, top, merge, has_dependency_changes,
}

-- A worker's transaction: not started, at its next call, past its timeout, or merged.
pub data Worker : Type 0 where
  idle : Worker
  running : Prog (Unit {0}) → Tracker → Worker
  expired : Tracker → Worker
  merged : Worker

pub record Executor : Type 0 where
  pub root_trk : Tracker
  pub merge_idx : ℕ
  pub workers : ℕ → Worker
  pub tx_commits : List (Outcome (Unit {0}))

abbrev pub Txs : Type 0
Txs = ℕ → Prog (Unit {0})

-- `bexe.rootTrk = NewStateTracker(bexe.state, nil)`, and nothing has started
unfoldable pub start : Executor
unfolding new_state_tracker
start = record {
  root_trk = new_state_tracker [];
  merge_idx = 0;
  workers = λ i. idle;
  tx_commits = [];
}

abbrev pub set_worker : (ℕ → Worker) → ℕ → Worker → ℕ → Worker
set_worker workers i w j = if i == j then w else workers j

module _ (store : Bytes → Slice) where
  -- `txTrk.GetState(key)`, over the root tracker
  unfoldable pub read : Tracker → Tracker → Bytes → Slice × Tracker
  unfolding get_state top
  read root trk key = let r = get_state store (trk ∷ root ∷ []) key in (r.0, top r.1)

  -- The rest of a transaction, with nobody merging meanwhile.
  unfoldable pub finish : Tracker → Prog (Unit {0}) → Tracker → Outcome (Unit {0}) × Tracker
  finish root (pure a) trk = (ok a, trk)
  finish root (raise e) trk = (err e, trk)
  finish root (Prog.get_state key next) trk =
      let r = read root trk key in finish root (next r.0) r.1
  finish root (Prog.set_state key value next) trk = finish root next (set_state key value trk)

  -- `executeTx` from its start
  unfoldable pub execute_tx : Tracker → Prog (Unit {0}) → Outcome (Unit {0}) × Tracker
  unfolding spawn
  execute_tx root p = finish root p (spawn [])

-- The end of `mergeTxStateChanges`: a failed transaction changes nothing. Every error has a message; the
-- code would take one without for success.
unfoldable pub merge_result : Tracker → Outcome (Unit {0}) × Tracker → Tracker
unfolding merge
merge_result root (ok a, trk) = merge root trk
merge_result root (err e, trk) = root

unfoldable pub merged_by : Outcome (Unit {0}) × Tracker → Executor → Executor
merged_by r s = record {
  root_trk = merge_result s.root_trk r;
  merge_idx = suc s.merge_idx;
  workers = set_worker s.workers s.merge_idx merged;
  tx_commits = s.tx_commits ++ r.0 ∷ [];
}

-- The result of a worker that has one, with its tracker.
unfoldable pub result : Worker → Option (Outcome (Unit {0}) × Tracker)
result idle = none
result (running (pure a) trk) = some (ok a, trk)
result (running (raise e) trk) = some (err e, trk)
result (running (Prog.get_state key next) trk) = none
result (running (Prog.set_state key value next) trk) = none
result (expired trk) = some (err timeout, trk)
result merged = none

-- What the executor may do next.
pub data Step (store : Bytes → Slice) (txs : Txs) (s t : Executor) : Type 0 where
  starts :
      (i : ℕ)
      → s.workers i ≡ idle
      → t ≡ record s { workers = set_worker s.workers i (running (txs i) (spawn [])) }
      → Step store txs s t
  reads :
      (i : ℕ) (key : Bytes) (next : Slice → Prog (Unit {0})) (trk : Tracker)
      → s.workers i ≡ running (Prog.get_state key next) trk
      → t ≡ record s {
        workers =
            set_worker s.workers i
              (running (next (read store s.root_trk trk key).0) (read store s.root_trk trk key).1);
      }
      → Step store txs s t
  writes :
      (i : ℕ) (key : Bytes) (value : Slice) (next : Prog (Unit {0})) (trk : Tracker)
      → s.workers i ≡ running (Prog.set_state key value next) trk
      → t ≡ record s { workers = set_worker s.workers i (running next (set_state key value trk)) }
      → Step store txs s t
  -- The chaincode runs on, and nobody looks at what it does: its calls up to the moment of the merge
  -- stand before this step in the schedule.
  times_out :
      (i : ℕ) (p : Prog (Unit {0})) (trk : Tracker)
      → s.workers i ≡ running p trk
      → t ≡ record s { workers = set_worker s.workers i (expired trk) }
      → Step store txs s t
  -- no dependency has changed: the result stands
  merges :
      (r : Outcome (Unit {0}) × Tracker)
      → result (s.workers s.merge_idx) ≡ some r
      → has_dependency_changes s.root_trk r.1 ≡ false
      → t ≡ merged_by r s
      → Step store txs s t
  -- a dependency has changed: the transaction is executed again, while nobody else may merge
  re_executes :
      (r : Outcome (Unit {0}) × Tracker)
      → result (s.workers s.merge_idx) ≡ some r
      → has_dependency_changes s.root_trk r.1 ≡ true
      → t ≡ merged_by (execute_tx store s.root_trk (txs s.merge_idx)) s
      → Step store txs s t
  re_times_out :
      (r : Outcome (Unit {0}) × Tracker) (trk : Tracker)
      → result (s.workers s.merge_idx) ≡ some r
      → has_dependency_changes s.root_trk r.1 ≡ true
      → t ≡ merged_by (err timeout, trk) s
      → Step store txs s t

-- The schedules that lead from one state to another.
pub data Reach (store : Bytes → Slice) (txs : Txs) (s : Executor) : Executor → Type 0 where
  here : Reach store txs s s
  next : {t u : Executor} → Reach store txs s t → Step store txs t u → Reach store txs s u
