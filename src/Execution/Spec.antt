-- ===== src/Execution/Spec.antt =====
-- What a chaincode means: a function on a plain map of keys to values, with no trackers; and that
-- running it on a stack of trackers (execution/common/state_tracker.go) is that function.
use svp_blockchain.Base.{[], ◌∷◌, ◌++◌, if◌then◌else◌, ◌≡◌, refl, arith, fun_ext}
use mathlib.Core.Path.{subst}
use svp_blockchain.Base.Bytes.{Bytes, Slice, same}
use svp_blockchain.Execution.Prog.{Prog, pure, raise, Outcome, ok, err}
use svp_blockchain.Execution.Tracker.{Tracker, Stack, get_state, write}
use svp_blockchain.Execution.Tracker.Laws.{get_state-set_state}
use svp_blockchain.Execution.Run.{run}

abbrev pub State : Type 0
State = Bytes → Slice

abbrev pub update : State → Bytes → Slice → State
update st key value other = if same key other then value else st other

unfoldable pub exec {ℓ} : {A : Type ℓ} → Prog A → State → Outcome A × State
exec (pure a) st = (ok a, st)
exec (raise e) st = (err e, st)
exec (Prog.get_state key next) st = exec (next (st key)) st
exec (Prog.set_state key value next) st = exec next (update st key value)

-- What a stack of trackers shows at each key
abbrev pub view : (Bytes → Slice) → Stack → State
view store stack key = (get_state store stack key).0

module _ (store : Bytes → Slice) where
  view-get_state_at :
      (stack : Stack) (key other : Bytes)
      → view store (get_state store stack key).1 other ≡ view store stack other
  unfolding get_state
  view-get_state_at [] key other = refl
  view-get_state_at (trk ∷ base) key other =
      ground (arith, view-get_state_at base (trk.key_prefix ++ key) (trk.key_prefix ++ other))

  view-get_state :
      (stack : Stack) (key : Bytes) → view store (get_state store stack key).1 ≡ view store stack
  view-get_state stack key = fun_ext (view-get_state_at stack key)

  -- Somebody has to record the writes.
  abbrev IsTracked : Stack → Type 0
  IsTracked [] = ⊥
  IsTracked (trk ∷ base) = Unit {0}

  get_state-IsTracked :
      (stack : Stack) (key : Bytes) → IsTracked stack → IsTracked (get_state store stack key).1
  unfolding get_state
  get_state-IsTracked [] key h = h
  get_state-IsTracked (trk ∷ base) key h = ground arith

  write-IsTracked :
      (stack : Stack) (key : Bytes) (value : Slice)
      → IsTracked stack
      → IsTracked (write key value stack)
  unfolding write
  write-IsTracked [] key value h = h
  write-IsTracked (trk ∷ base) key value h = h

  view-write :
      (stack : Stack) (key : Bytes) (value : Slice)
      → IsTracked stack
      → view store (write key value stack) ≡ update (view store stack) key value
  unfolding write
  view-write [] key value h = absurd h
  view-write (trk ∷ base) key value h =
      fun_ext (λ other. get_state-set_state store base trk key other value)

  abbrev Agrees {ℓ} : {A : Type ℓ} → Prog A → Stack → State → Type ℓ
  Agrees p stack st =
      ((run store p stack).0 ≡ (exec p st).0) × (view store (run store p stack).1 ≡ (exec p st).1)

  run-exec_tracked {ℓ} :
      {A : Type ℓ} (p : Prog A) (stack : Stack)
      → IsTracked stack
      → Agrees p stack (view store stack)
  unfolding run exec
  run-exec_tracked (pure a) stack h = (refl, refl)
  run-exec_tracked (raise e) stack h = (refl, refl)
  run-exec_tracked (Prog.get_state key next) stack h =
      let r = get_state store stack key in
      subst (Agrees (next r.0) r.1) (view-get_state stack key)
        (run-exec_tracked (next r.0) r.1 (get_state-IsTracked stack key h))
  run-exec_tracked (Prog.set_state key value next) stack h =
      subst (Agrees next (write key value stack)) (view-write stack key value h)
        (run-exec_tracked next (write key value stack) (write-IsTracked stack key value h))

  -- A chaincode on a tracker returns what it returns on the plain map that the tracker shows over its
  -- bases, and leaves a tracker that shows the map which it leaves.
  pub run-exec {ℓ} :
      {A : Type ℓ} (p : Prog A) (trk : Tracker) (base : Stack)
      → ((run store p (trk ∷ base)).0 ≡ (exec p (view store (trk ∷ base))).0)
        × (view store (run store p (trk ∷ base)).1 ≡ (exec p (view store (trk ∷ base))).1)
  run-exec p trk base = run-exec_tracked p (trk ∷ base) tt
