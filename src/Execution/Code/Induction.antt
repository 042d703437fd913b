-- ===== src/Execution/Code/Induction.antt =====
-- Induction on the calls of a chaincode on its two trackers (execution/tx_executer.go).
use mathlib.Core.Path.{subst}
use svp_blockchain.Base.{none, some, ◌++◌, ◌≡◌, refl, ◌∙◌, ap, fun_ext, sym, inl, inr, Option-cases}
use svp_blockchain.Base.Bytes.{Bytes, Slice}
use svp_blockchain.Base.Assoc.{Assoc, lookup, insert}
use svp_blockchain.Execution.Prog.{Error, Prog, Outcome, ok, err}
use svp_blockchain.Execution.Code.{Code, own_only, on_trackers}
use svp_blockchain.Execution.Run.{on_child}
use svp_blockchain.Execution.Run.Child.{on_child-found, on_child-missing}
use svp_blockchain.Execution.Spec.{State, update, exec}

module _ {A : Type 0} (key_prefix : Bytes) where
  on_trackers-found :
      (changes : Assoc Slice) (key : Bytes) (next : Slice → Code A) (value : Slice)
      → lookup (key_prefix ++ key) changes ≡ some value
      → on_trackers key_prefix changes (Code.get_own key next)
        ≡ on_trackers key_prefix changes (next value)
  unfolding on_trackers
  on_trackers-found changes key next value e = rw (e, on_trackers)

  on_trackers-missing :
      (changes : Assoc Slice) (key : Bytes) (next : Slice → Code A)
      → lookup (key_prefix ++ key) changes ≡ none
      → on_trackers key_prefix changes (Code.get_own key next)
        ≡ Prog.get_state (key_prefix ++ key) (λ value. on_trackers key_prefix changes (next value))
  unfolding on_trackers
  on_trackers-missing changes key next e = rw (e, on_trackers)

-- An invariant `I` of the changes of the child, the state and the rest of the chaincode, with what it gives
-- at the end
pub record Holding {A : Type 0} (key_prefix : Bytes) (I : Assoc Slice → State → Code A → Type 0)
    (Q : Outcome (A × Assoc Slice) × State → Type 0) : Type 0 where
  pub at_done :
      (changes : Assoc Slice) (st : State) (a : A)
      → I changes st (Code.done a)
      → Q (ok (a, changes), st)
  pub at_fail :
      (changes : Assoc Slice) (st : State) (e : Error) → I changes st (Code.fail e) → Q (err e, st)
  pub at_get_own :
      (changes : Assoc Slice) (st : State) (key : Bytes) (next : Slice → Code A) (value : Slice)
      → I changes st (Code.get_own key next)
      → I changes st (next value)
  pub at_set_own :
      (changes : Assoc Slice) (st : State) (key : Bytes) (value : Slice) (next : Code A)
      → I changes st (Code.set_own key value next)
      → I (insert (key_prefix ++ key) value changes) st next
  pub at_get_tx :
      (changes : Assoc Slice) (st : State) (key : Bytes) (next : Slice → Code A) (value : Slice)
      → I changes st (Code.get_tx key next)
      → I changes st (next value)
  pub at_set_tx :
      (changes : Assoc Slice) (st : State) (key : Bytes) (value : Slice) (next : Code A)
      → I changes st (Code.set_tx key value next)
      → I changes (update st key value) next

pub exec-on_trackers :
    {A : Type 0} (key_prefix : Bytes) (I : Assoc Slice → State → Code A → Type 0)
    (Q : Outcome (A × Assoc Slice) × State → Type 0)
    → Holding key_prefix I Q
    → (c : Code A) (changes : Assoc Slice) (st : State) → I changes st c
    → Q (exec (on_trackers key_prefix changes c) st)
unfolding exec on_trackers
exec-on_trackers key_prefix I Q h (Code.done a) changes st i = h.at_done changes st a i
exec-on_trackers key_prefix I Q h (Code.fail e) changes st i = h.at_fail changes st e i
exec-on_trackers {A} key_prefix I Q h (Code.get_own key next) changes st i =
    let R = λ (q : Prog (A × Assoc Slice)). Q (exec q st) in
    elim (Option-cases (lookup (key_prefix ++ key) changes)) [
      | inl e ↦
          let value = st (key_prefix ++ key) in
          subst R (sym (on_trackers-missing key_prefix changes key next e)) (
            exec-on_trackers key_prefix I Q h (next value) changes st
              (h.at_get_own changes st key next value i))
      | inr (value, e) ↦ subst R (sym (on_trackers-found key_prefix changes key next value e)) (
          exec-on_trackers key_prefix I Q h (next value) changes st
            (h.at_get_own changes st key next value i))
    ]
exec-on_trackers key_prefix I Q h (Code.set_own key value next) changes st i =
    exec-on_trackers key_prefix I Q h next (insert (key_prefix ++ key) value changes) st
      (h.at_set_own changes st key value next i)
exec-on_trackers key_prefix I Q h (Code.get_tx key next) changes st i =
    exec-on_trackers key_prefix I Q h (next (st key)) changes st
      (h.at_get_tx changes st key next (st key) i)
exec-on_trackers key_prefix I Q h (Code.set_tx key value next) changes st i =
    exec-on_trackers key_prefix I Q h next changes (update st key value)
      (h.at_set_tx changes st key value next i)

-- With a chaincode whose `SetTxTrk` does nothing, the two trackers are the child alone.
on_trackers-own_only :
    {A : Type 0} (key_prefix : Bytes) (p : Prog A) (changes : Assoc Slice)
    → on_trackers key_prefix changes (own_only p) ≡ on_child key_prefix changes p
unfolding on_trackers own_only on_child
on_trackers-own_only key_prefix (Prog.pure a) changes = refl
on_trackers-own_only key_prefix (Prog.raise e) changes = refl
on_trackers-own_only key_prefix (Prog.get_state key next) changes =
    elim (Option-cases (lookup (key_prefix ++ key) changes)) [
      | inl e ↦
          on_trackers-missing key_prefix changes key (λ value. own_only (next value)) e
          ∙ ap (λ f. Prog.get_state (key_prefix ++ key) f)
              (fun_ext (λ value. on_trackers-own_only key_prefix (next value) changes))
          ∙ sym (on_child-missing key_prefix changes key next e)
      | inr (value, e) ↦
          on_trackers-found key_prefix changes key (λ v. own_only (next v)) value e
          ∙ on_trackers-own_only key_prefix (next value) changes
          ∙ sym (on_child-found key_prefix changes key next value e)
    ]
on_trackers-own_only key_prefix (Prog.set_state key value next) changes =
    on_trackers-own_only key_prefix next (insert (key_prefix ++ key) value changes)
