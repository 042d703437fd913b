-- ===== src/Execution/Run.antt =====
-- Running a chaincode on a stack of trackers, as `ctx.GetState` and `ctx.SetState` do.
pub mod Child
use svp_blockchain.Base.{List, [], ◌∷◌, ◌++◌, Option, none, some}
use svp_blockchain.Base.Bytes.{Bytes, Slice}
use svp_blockchain.Base.Assoc.{Assoc, lookup, insert}
use svp_blockchain.Execution.Prog.{Prog, pure, raise, Outcome, ok, err}
use svp_blockchain.Execution.Prog
use svp_blockchain.Execution.Tracker.{Stack, get_state, write}

module _ {ℓ} {A : Type ℓ} (store : Bytes → Slice) where
  unfoldable pub run : Prog A → Stack → Outcome A × Stack
  run (pure a) stack = (ok a, stack)
  run (raise e) stack = (err e, stack)
  run (Prog.get_state key next) stack =
      let read = get_state store stack key in run (next read.0) read.1
  run (Prog.set_state key value next) stack = run next (write key value stack)

-- A child tracker as its parent sees it: the calls of a chaincode on the child, turned into calls
-- on the parent, with the child's changes handed back at the end.
module _ {ℓ} {A : Type ℓ} (key_prefix : Bytes) where
  unfoldable pub on_child : Assoc Slice → Prog A → Prog (A × Assoc Slice)
  on_child changes (pure a) = pure (a, changes)
  on_child changes (raise e) = raise e
  on_child changes (Prog.get_state key next) =
      let full = key_prefix ++ key in
      elim (lookup full changes) [
        | some value ↦ on_child changes (next value)
        | none ↦ Prog.get_state full (λ value. on_child changes (next value))
      ]
  on_child changes (Prog.set_state key value next) =
      on_child (insert (key_prefix ++ key) value changes) next
