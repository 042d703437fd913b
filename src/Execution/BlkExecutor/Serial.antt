-- ===== src/Execution/BlkExecutor/Serial.antt =====
-- Whatever the schedule, the block ends as if its transactions had been executed one after the other.
use svp_blockchain.Base.{ℕ, false, [], ◌≡◌, refl, arith, some, sym, ◌∙◌}
use mathlib.Core.Path.{subst}
use mathlib.Core.Option.{some-injective}
use svp_blockchain.Base.Bytes.{Bytes, Slice}
use svp_blockchain.Execution.Prog.{Prog, pure, raise, Outcome, ok, err}
use svp_blockchain.Execution.Tracker.{Tracker, spawn, has_dependency_changes}
use svp_blockchain.Execution.BlkExecutor.Defs.{
  Worker, idle, running, expired, merged, Executor, Txs, start, set_worker, finish, execute_tx,
  merge_result, merged_by, result, Step, starts, reads, writes, times_out, merges, re_executes,
  re_times_out, Reach, here, next,
}
use svp_blockchain.Execution.BlkExecutor.Dependencies.{bare, finish_unchanged}
use svp_blockchain.Execution.BlkExecutor.Invariant.{
  Executes, completes, expires, Serial, one_more, OnTrack, WorkerOk, Inv, start-Inv,
  started-OnTrack, read-OnTrack, write-OnTrack, merge_result-WorkerOk, key_prefix-merge_result,
  set_worker-ok,
}

module _ (store : Bytes → Slice) where
  done-Executes :
      (root : Tracker) (tx p : Prog (Unit {0})) (trk : Tracker) (o : Outcome (Unit {0}))
      → root.key_prefix ≡ []
      → OnTrack store root tx p trk
      → finish store bare p trk ≡ (o, trk)
      → has_dependency_changes root trk ≡ false
      → Executes store root tx (o, trk)
  unfolding execute_tx
  done-Executes root tx p trk o e k f h =
      let alone = k.same_end h ∙ f in
      completes (sym (finish_unchanged store root tx (spawn []) e refl (rw alone h) ∙ alone))

  result-Executes :
      (root : Tracker) (tx : Prog (Unit {0})) (w : Worker) (r : Outcome (Unit {0}) × Tracker)
      → root.key_prefix ≡ []
      → WorkerOk store root tx w
      → result w ≡ some r
      → has_dependency_changes root r.1 ≡ false
      → Executes store root tx r
  unfolding result finish
  result-Executes root tx idle r e k q h = cc
  result-Executes root tx (running (pure a) trk) r e k q h =
      subst (λ r. has_dependency_changes root r.1 ≡ false → Executes store root tx r)
        (some-injective _ _ q) (done-Executes root tx (pure a) trk (ok a) e k refl) h
  result-Executes root tx (running (raise x) trk) r e k q h =
      subst (λ r. has_dependency_changes root r.1 ≡ false → Executes store root tx r)
        (some-injective _ _ q) (done-Executes root tx (raise x) trk (err x) e k refl) h
  result-Executes root tx (running (Prog.get_state key go) trk) r e k q h = cc
  result-Executes root tx (running (Prog.set_state key value go) trk) r e k q h = cc
  result-Executes root tx (expired trk) r e k q h = expires (ground arith)
  result-Executes root tx merged r e k q h = cc

  module _ (txs : Txs) where
    merged_by-Inv :
        (s : Executor) (r : Outcome (Unit {0}) × Tracker)
        → Inv store txs s
        → Executes store s.root_trk (txs s.merge_idx) r
        → Inv store txs (merged_by r s)
    unfolding merged_by
    merged_by-Inv s r v x = record {
      serial = one_more v.serial r x;
      unprefixed = key_prefix-merge_result store s.root_trk r ∙ v.unprefixed;
      workers_ok =
          set_worker-ok store (merge_result s.root_trk r) txs s.workers s.merge_idx merged
            (λ j. merge_result-WorkerOk store s.root_trk r (txs j) (s.workers j) (v.workers_ok j))
            tt;
    }

    update-Inv :
        (s : Executor) (i : ℕ) (w : Worker)
        → Inv store txs s
        → WorkerOk store s.root_trk (txs i) w
        → Inv store txs (record s { workers = set_worker s.workers i w })
    update-Inv s i w v k = record {
      serial = v.serial;
      unprefixed = v.unprefixed;
      workers_ok = set_worker-ok store s.root_trk txs s.workers i w v.workers_ok k;
    }

    Step-Inv : (s t : Executor) → Inv store txs s → Step store txs s t → Inv store txs t
    Step-Inv s t v (starts i w e) =
        rw e (update-Inv s i _ v (started-OnTrack store s.root_trk (txs i)))
    Step-Inv s t v (reads i key go trk w e) = rw e (
        update-Inv s i _ v (
          read-OnTrack store s.root_trk (txs i) key go trk v.unprefixed (rw w at (v.workers_ok i))))
    Step-Inv s t v (writes i key value go trk w e) = rw e (
        update-Inv s i _ v
          (write-OnTrack store s.root_trk (txs i) key value go trk (rw w at (v.workers_ok i))))
    Step-Inv s t v (times_out i p trk w e) = rw e (update-Inv s i _ v tt)
    Step-Inv s t v (merges r w h e) = rw e (
        merged_by-Inv s r v (
          result-Executes s.root_trk (txs s.merge_idx) (s.workers s.merge_idx) r v.unprefixed
            (v.workers_ok s.merge_idx) w h))
    Step-Inv s t v (re_executes r w h e) = rw e (merged_by-Inv s _ v (completes refl))
    Step-Inv s t v (re_times_out r trk w h e) = rw e (merged_by-Inv s _ v (expires refl))

    Reach-Inv : {s t : Executor} → Inv store txs s → Reach store txs s t → Inv store txs t
    Reach-Inv v here = v
    Reach-Inv v (next {t} {u} r st) = Step-Inv t u (Reach-Inv v r) st

    -- In every state that a schedule reaches, the merged transactions, their results and the changes of
    -- the root tracker are those of a serial execution, in which each transaction either runs alone
    -- over what the earlier ones left or has timed out and changed nothing.
    pub serializable :
        {s : Executor}
        → Reach store txs start s
        → Serial store txs s.merge_idx s.root_trk s.tx_commits
    serializable r = (Reach-Inv (start-Inv store txs) r).serial
