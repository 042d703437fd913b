-- ===== src/Execution/BlkExecutor/Tests.antt =====
-- A block of two transactions on a schedule in which the second reads too early.
use svp_blockchain.Base.{zero, suc, ◌≡◌, refl, none, some, [], ◌∷◌}
use svp_blockchain.Base.Bytes.{Bytes, Slice, same}
use svp_blockchain.Base.Assoc.{lookup, insert, has}
use svp_blockchain.Execution.Prog.{pure, ◌>>=◌, get, put, ok}
use svp_blockchain.Execution.Tracker.{
  spawn, get_state, set_state, merge, has_dependency_changes, any_changed,
}
use svp_blockchain.Execution.BlkExecutor.Defs.{
  Executor, Txs, start, read, finish, execute_tx, merged_by, merge_result, result, starts, reads,
  writes, merges, re_executes, Reach, here, next,
}
use svp_blockchain.Execution.BlkExecutor.Invariant.{Serial}
use svp_blockchain.Execution.BlkExecutor.Serial.{serializable}
use svp_blockchain.Execution.BlkExecutor.Determinism.{in_order, deterministic}

opened : Unit {0}
unfolding same lookup insert has spawn get_state set_state merge has_dependency_changes any_changed
    start read finish execute_tx merged_by merge_result result
opened = tt

abbrev store : Bytes → Slice
store key = none

-- The first writes a 7 at key 1, the second copies key 1 to key 2.
abbrev txs : Txs
txs zero = put (1 ∷ []) (some (7 ∷ []))
txs (suc n) = do v ← get (1 ∷ []); put (2 ∷ []) v

-- The second starts and reads, then the first runs and merges, then the second writes; at its turn it
-- is executed again, since key 1 has changed.
pub schedule :
    (s : Executor) × Reach store txs start s
    × (s.merge_idx ≡ 2)
    × (s.tx_commits ≡ ok tt ∷ ok tt ∷ [])
    × (lookup (2 ∷ []) s.root_trk.changes ≡ some (some (7 ∷ [])))
unfolding opened
schedule = (
  _,
  next
      (next
        (next
          (next
            (next
              (next (next here (starts 1 refl refl))
                (reads 1 (1 ∷ []) (λ v. put (2 ∷ []) v) (spawn []) refl refl))
              (starts 0 refl refl))
            (writes 0 (1 ∷ []) (some (7 ∷ [])) (pure tt) (spawn []) refl refl))
          (merges _ refl refl refl))
        (writes 1 (2 ∷ []) none (pure tt) _ refl refl))
      (re_executes _ refl refl refl),
  refl,
  refl,
  refl,
)

serializable_example :
    Serial store txs schedule.0.merge_idx schedule.0.root_trk schedule.0.tx_commits
serializable_example = serializable store txs schedule.1

deterministic_example :
    (schedule.0.root_trk ≡ (in_order store txs schedule.0.merge_idx).0)
    × (schedule.0.tx_commits ≡ (in_order store txs schedule.0.merge_idx).1)
deterministic_example = deterministic store txs schedule.1 (rw schedule.3 (λ e. cc, (λ e. cc, tt)))
