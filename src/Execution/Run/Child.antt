-- ===== src/Execution/Run/Child.antt =====
-- `on_child` is what a spawned tracker does (`Spawn` of execution/common/state_tracker.go).
use svp_blockchain.Base.{
  none, some, [], ◌∷◌, ◌++◌, ◌≡◌, refl, arith, inl, inr, Option-cases, ap, sym, ◌∙◌,
}
use svp_blockchain.Base.Bytes.{Bytes, Slice}
use svp_blockchain.Base.Assoc.{Assoc, lookup}
use svp_blockchain.Execution.Prog.{Prog, pure, raise, Outcome, ok, err}
use svp_blockchain.Execution.Tracker.{Tracker, Stack, get_state, set_dependency, set_state, write}
use svp_blockchain.Execution.Run.{run, on_child}

-- What a child hands to its parent: its result with its changes, or an error.
abbrev pub handed_back {ℓ} : {A : Type ℓ} → Outcome A × Stack → Outcome (A × Assoc Slice) × Stack
handed_back (ok a, []) = (ok (a, []), [])
handed_back (ok a, trk ∷ base) = (ok (a, trk.changes), base)
handed_back (err e, []) = (err e, [])
handed_back (err e, trk ∷ base) = (err e, base)

module _ {ℓ} {A : Type ℓ} (prefix : Bytes) (changes : Assoc Slice) (key : Bytes)
    (go : Slice → Prog A) where
  pub on_child-found :
      (value : Slice)
      → lookup (prefix ++ key) changes ≡ some value
      → on_child prefix changes (Prog.get_state key go) ≡ on_child prefix changes (go value)
  unfolding on_child
  on_child-found value e = rw (e, on_child)

  pub on_child-missing :
      lookup (prefix ++ key) changes ≡ none
      → on_child prefix changes (Prog.get_state key go)
        ≡ Prog.get_state (prefix ++ key) (λ value. on_child prefix changes (go value))
  unfolding on_child
  on_child-missing e = rw (e, on_child)

set_dependency-key_prefix :
    (key : Bytes) (trk : Tracker) → (set_dependency key trk).key_prefix ≡ trk.key_prefix
unfolding set_dependency
set_dependency-key_prefix key trk = ground arith

set_dependency-changes :
    (key : Bytes) (trk : Tracker) → (set_dependency key trk).changes ≡ trk.changes
unfolding set_dependency
set_dependency-changes key trk = ground arith

module _ (store : Bytes → Slice) where
  get_state-found :
      (trk : Tracker) (base : Stack) (key : Bytes) (value : Slice)
      → lookup (trk.key_prefix ++ key) trk.changes ≡ some value
      → get_state store (trk ∷ base) key
        ≡ (value, set_dependency (trk.key_prefix ++ key) trk ∷ base)
  unfolding get_state
  get_state-found trk base key value e = rw (e, get_state)

  get_state-missing :
      (trk : Tracker) (base : Stack) (key : Bytes)
      → lookup (trk.key_prefix ++ key) trk.changes ≡ none
      → get_state store (trk ∷ base) key ≡ (
          let below = get_state store base (trk.key_prefix ++ key) in
          (below.0, set_dependency (trk.key_prefix ++ key) trk ∷ below.1))
  unfolding get_state
  get_state-missing trk base key e = rw (e, get_state)

module _ {ℓ} {A : Type ℓ} (store : Bytes → Slice) where
  -- To run a chaincode on a child tracker over some bases is to run `on_child` on the bases.
  pub run-on_child :
      (p : Prog A) (trk : Tracker) (base : Stack)
      → run store (on_child trk.key_prefix trk.changes p) base
        ≡ handed_back (run store p (trk ∷ base))
  unfolding run on_child write set_dependency
  run-on_child (pure a) trk base = refl
  run-on_child (raise e) trk base = refl
  run-on_child (Prog.get_state key go) trk base =
      let full = trk.key_prefix ++ key in
      elim (Option-cases (lookup full trk.changes)) [
        | inl e ↦
            let below = get_state store base full in
            ap (λ (q : Prog (A × Assoc Slice)). run store q base)
              (on_child-missing trk.key_prefix trk.changes key go e)
            ∙ (rw (set_dependency-key_prefix full trk, set_dependency-changes full trk) at
                (run-on_child (go below.0) (set_dependency full trk) below.1))
            ∙ sym (
                ap (λ (r : Slice × Stack). handed_back (run store (go r.0) r.1))
                  (get_state-missing store trk base key e))
        | inr (v, e) ↦
            ap (λ (q : Prog (A × Assoc Slice)). run store q base)
              (on_child-found trk.key_prefix trk.changes key go v e)
            ∙ (rw (set_dependency-key_prefix full trk, set_dependency-changes full trk) at
                (run-on_child (go v) (set_dependency full trk) base))
            ∙ sym (
                ap (λ (r : Slice × Stack). handed_back (run store (go r.0) r.1))
                  (get_state-found store trk base key v e))
      ]
  run-on_child (Prog.set_state key value go) trk base =
      run-on_child go (set_state key value trk) base
