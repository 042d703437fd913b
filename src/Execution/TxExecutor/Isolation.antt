-- ===== src/Execution/TxExecutor/Isolation.antt =====
-- Which keys an invocation can change (execution/tx_executer.go).
use mathlib.Core.Path.{subst}
use svp_blockchain.Base.{ℕ, Bool, true, false, [], ◌≡◌, refl, sym, ◌∙◌, arith}
use svp_blockchain.Base.Bytes.{Bytes, Slice, same_iff}
use svp_blockchain.Base.Assoc.{Assoc}
use svp_blockchain.Core.Transaction.{Transaction}
use svp_blockchain.Execution.Prog.{Prog, Outcome, ok, err, ◌>>=◌}
use svp_blockchain.Execution.Code.{Code, own_only, on_trackers}
use svp_blockchain.Execution.Code.Induction.{Holding, exec-on_trackers}
use svp_blockchain.Execution.Spec.{State, update, exec}
use svp_blockchain.Execution.Context.{CallContext, Chaincode}
use svp_blockchain.Execution.Registry.{Codec, CodeRegistry, code_registry_addr, get_instance}
use svp_blockchain.Execution.TxExecutor.{put_all, execute_invoke, make_call_context}
use svp_blockchain.Execution.TxExecutor.Handed.{
  starts_with, Under, insert-Under, exec-put_all_outside, Registered, exec-bind, bind_child,
  get_instance-Returns,
}

-- On the tracker of the transaction the chaincode writes only to keys of `p`.
abbrev pub WritesWithin : {A : Type 0} → (Bytes → Bool) → Code A → Type 0
WritesWithin p (Code.done a) = Unit {0}
WritesWithin p (Code.fail e) = Unit {0}
WritesWithin p (Code.get_own key next) = (value : Slice) → WritesWithin p (next value)
WritesWithin p (Code.set_own key value next) = WritesWithin p next
WritesWithin p (Code.get_tx key next) = (value : Slice) → WritesWithin p (next value)
WritesWithin p (Code.set_tx key value next) = (p key ≡ true) × WritesWithin p next

pub own_only-WritesWithin :
    {A : Type 0} (p : Bytes → Bool) (q : Prog A) → WritesWithin p (own_only q)
unfolding own_only
own_only-WritesWithin p (Prog.pure a) = tt
own_only-WritesWithin p (Prog.raise e) = tt
own_only-WritesWithin p (Prog.get_state key next) = λ value. own_only-WritesWithin p (next value)
own_only-WritesWithin p (Prog.set_state key value next) = own_only-WritesWithin p next

abbrev pub InvokesWithin : (Bytes → Bool) → Chaincode → Type 0
InvokesWithin p cc = (ctx : CallContext) → WritesWithin p (cc.invoke ctx)

module _ (p : Bytes → Bool) (before : State) (key : Bytes) (outside : p key ≡ false) where
  Untouched : {A : Type 0} → Bytes → Assoc Slice → State → Code A → Type 0
  Untouched key_prefix changes st c =
      WritesWithin p c × Under key_prefix changes × (st key ≡ before key)

  abbrev Left : {A : Type 0} → Bytes → Outcome (A × Assoc Slice) × State → Type 0
  Left key_prefix (ok (a, changes), st) = Under key_prefix changes × (st key ≡ before key)
  Left key_prefix (err e, st) = st key ≡ before key

  update_other :
      (st : State) (j : Bytes) (value : Slice) → p j ≡ true → update st j value key ≡ st key
  update_other st j value h = ground (arith, same_iff j key)

  Untouched-Holding :
      {A : Type 0} (key_prefix : Bytes)
      → Holding {A = A} key_prefix (Untouched key_prefix) (Left key_prefix)
  unfolding Untouched
  Untouched-Holding key_prefix = record {
    at_done = λ changes st a i. (i.1, i.2);
    at_fail = λ changes st e i. i.2;
    at_get_own = λ changes st j next value i. (i.0 value, i.1, i.2);
    at_set_own =
        λ changes st j value next i. (i.0, insert-Under key_prefix j value changes i.1, i.2);
    at_get_tx = λ changes st j next value i. (i.0 value, i.1, i.2);
    at_set_tx = λ changes st j value next i. (i.0.1, i.1, update_other st j value i.0.0 ∙ i.2);
  }

  abbrev Kept : Outcome (Unit {0}) × State → Type 0
  Kept r = r.1 key ≡ before key

  continue_code :
      {A : Type 0} (key_prefix : Bytes) (r : Outcome (A × Assoc Slice) × State)
      → starts_with key_prefix key ≡ false
      → Left key_prefix r
      → Kept (elim r.0 [ ok a ↦ exec (put_all a.1) r.1 | err e ↦ (err e, r.1) ])
  continue_code key_prefix (ok (a, changes), st) h l =
      exec-put_all_outside key_prefix changes st key l.0 h ∙ l.1
  continue_code key_prefix (err e, st) h l = l

  bind_code :
      (key_prefix : Bytes) (c : Code (Unit {0}))
      → starts_with key_prefix key ≡ false
      → WritesWithin p c
      → Kept (exec (on_trackers key_prefix [] c >>= λ a. put_all a.1) before)
  unfolding Untouched
  bind_code key_prefix c h w =
      subst Kept (sym (exec-bind (on_trackers key_prefix [] c) (λ a. put_all a.1) before)) (
        continue_code key_prefix (exec (on_trackers key_prefix [] c) before) h (
          exec-on_trackers key_prefix (Untouched key_prefix) (Left key_prefix)
            (Untouched-Holding key_prefix) c [] before (w, tt, refl)))

-- An invocation changes no key but those that start with the address of the invoked code, and those that
-- the registered chaincodes write on the tracker of the transaction.
pub execute_invoke_isolated :
    (codec : Codec) (reg : CodeRegistry) (height : ℕ) (tx : Transaction) (p : Bytes → Bool)
    (st : State) (key : Bytes)
    → Registered reg (InvokesWithin p)
    → starts_with tx.code_addr key ≡ false
    → p key ≡ false
    → (exec (execute_invoke codec reg height tx) st).1 key ≡ st key
unfolding execute_invoke
execute_invoke_isolated codec reg height tx p st key registered h outside =
    let ctx = make_call_context codec reg height tx tx.input in
    bind_child (InvokesWithin p) code_registry_addr _ st (λ r. r.1 key ≡ st key)
      (get_instance codec reg tx.code_addr)
      (get_instance-Returns codec reg (InvokesWithin p) registered tx.code_addr)
      (λ cc reg_changes sound _.
        bind_code p st key outside tx.code_addr (cc.invoke ctx) h (sound ctx))
      (λ e. refl)
