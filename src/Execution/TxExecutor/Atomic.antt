-- ===== src/Execution/TxExecutor/Atomic.antt =====
-- What a transaction that fails has done (execution/tx_executer.go).
use mathlib.Core.Path.{subst}
use svp_blockchain.Base.{ℕ, Option, none, some, [], ◌∷◌, ◌≡◌, refl, ◌⊎◌, inl, inr, sym}
use svp_blockchain.Base.Bytes.{Bytes, Slice}
use svp_blockchain.Base.Assoc.{Assoc}
use svp_blockchain.Core.Transaction.{Transaction}
use svp_blockchain.Execution.Prog.{Error, Prog, Outcome, ok, err, ◌>>=◌}
use svp_blockchain.Execution.Code.{Code, own_only, on_trackers}
use svp_blockchain.Execution.Code.Induction.{Holding, exec-on_trackers}
use svp_blockchain.Execution.Spec.{State, update, exec}
use svp_blockchain.Execution.Context.{CallContext, Chaincode, DeploymentInput}
use svp_blockchain.Execution.Registry.{
  Codec, CodeRegistry, code_registry_addr, get_instance, deploy,
}
use svp_blockchain.Execution.TxExecutor.{
  put_all, decoded_deployment, by_code_addr, execute_invoke, execute_deployment, deployment,
  execute_chaincode, make_call_context,
}
use svp_blockchain.Execution.TxExecutor.Handed.{
  Registered, exec-bind, bind_child, get_instance-Returns, deploy-Returns,
}

abbrev pub NeverFails : {A : Type 0} → Code A → Type 0
NeverFails (Code.done a) = Unit {0}
NeverFails (Code.fail e) = ⊥
NeverFails (Code.get_own key next) = (value : Slice) → NeverFails (next value)
NeverFails (Code.set_own key value next) = NeverFails next
NeverFails (Code.get_tx key next) = (value : Slice) → NeverFails (next value)
NeverFails (Code.set_tx key value next) = NeverFails next

-- A chaincode that does not fail once it has written to the tracker of the transaction: that of native code
-- and of a process never writes to it, and the runner of execution/evm does so before it returns no error.
abbrev pub FailsBefore : {A : Type 0} → Code A → Type 0
FailsBefore (Code.done a) = Unit {0}
FailsBefore (Code.fail e) = Unit {0}
FailsBefore (Code.get_own key next) = (value : Slice) → FailsBefore (next value)
FailsBefore (Code.set_own key value next) = FailsBefore next
FailsBefore (Code.get_tx key next) = (value : Slice) → FailsBefore (next value)
FailsBefore (Code.set_tx key value next) = NeverFails next

pub own_only-FailsBefore : {A : Type 0} (p : Prog A) → FailsBefore (own_only p)
unfolding own_only
own_only-FailsBefore (Prog.pure a) = tt
own_only-FailsBefore (Prog.raise e) = tt
own_only-FailsBefore (Prog.get_state key next) = λ value. own_only-FailsBefore (next value)
own_only-FailsBefore (Prog.set_state key value next) = own_only-FailsBefore next

abbrev pub FailBefore : Chaincode → Type 0
FailBefore cc = (ctx : CallContext) → FailsBefore (cc.init ctx) × FailsBefore (cc.invoke ctx)

-- A failed run has changed nothing.
abbrev Atomic : {A : Type 0} → State → Outcome A × State → Type 0
Atomic st (ok a, st') = Unit {0}
Atomic st (err e, st') = st' ≡ st

unchanged :
    (st : State) (e : Error) (r : Outcome (Unit {0}) × State) → Atomic st r → r.0 ≡ err e → r.1 ≡ st
unchanged st e (ok a, st') h q = cc
unchanged st e (err x, st') h q = h

Unwritten : {A : Type 0} → State → Assoc Slice → State → Code A → Type 0
Unwritten before changes st c = (FailsBefore c × (st ≡ before)) ⊎ NeverFails c

Unwritten-Holding :
    {A : Type 0} (key_prefix : Bytes) (before : State)
    → Holding {A = A} key_prefix (Unwritten before) (Atomic before)
unfolding Unwritten
Unwritten-Holding key_prefix before = record {
  at_done = λ changes st a i. tt;
  at_fail = λ changes st e i. elim i [ inl h ↦ h.1 | inr h ↦ absurd h ];
  at_get_own = λ changes st key next value i. elim i [
    | inl h ↦ inl (h.0 value, h.1)
    | inr h ↦ inr (h value)
  ];
  at_set_own = λ changes st key value next i. i;
  at_get_tx = λ changes st key next value i. elim i [
    | inl h ↦ inl (h.0 value, h.1)
    | inr h ↦ inr (h value)
  ];
  at_set_tx = λ changes st key value next i. elim i [ inl h ↦ inr h.0 | inr h ↦ inr h ];
}

Atomic-put_all :
    (changes : Assoc Slice) (before st : State) → Atomic before (exec (put_all changes) st)
unfolding exec put_all
Atomic-put_all [] before st = tt
Atomic-put_all ((key, value) ∷ rest) before st = Atomic-put_all rest before (update st key value)

Atomic-put_both :
    (cs ds : Assoc Slice) (before st : State)
    → Atomic before (exec (put_all cs >>= λ _. put_all ds) st)
unfolding exec put_all
Atomic-put_both [] ds before st = Atomic-put_all ds before st
Atomic-put_both ((key, value) ∷ cs) ds before st =
    Atomic-put_both cs ds before (update st key value)

module _ {A B : Type 0} (f : A × Assoc Slice → Prog B) (before : State)
    (rest : (a : A × Assoc Slice) (st : State) → Atomic before (exec (f a) st)) where
  continue_code :
      (r : Outcome (A × Assoc Slice) × State)
      → Atomic {A = A × Assoc Slice} before r
      → Atomic {A = B} before (elim r.0 [ ok a ↦ exec (f a) r.1 | err e ↦ (err e, r.1) ])
  continue_code (ok a, st) h = rest a st
  continue_code (err e, st) h = h

  -- the chaincode, and what cannot fail after it
  bind_code :
      (key_prefix : Bytes) (c : Code A)
      → FailsBefore c
      → Atomic before (exec (on_trackers key_prefix [] c >>= f) before)
  unfolding Unwritten
  bind_code key_prefix c h =
      subst (Atomic before) (sym (exec-bind (on_trackers key_prefix [] c) f before)) (
        continue_code (exec (on_trackers key_prefix [] c) before) (
          exec-on_trackers key_prefix (Unwritten before) (Atomic before)
            (Unwritten-Holding key_prefix before) c [] before (inl (h, refl))))

module _ (codec : Codec) (reg : CodeRegistry) (height : ℕ) (tx : Transaction)
    (registered : Registered reg FailBefore) where
  execute_invoke-Atomic : (st : State) → Atomic st (exec (execute_invoke codec reg height tx) st)
  unfolding execute_invoke
  execute_invoke-Atomic st =
      let ctx = make_call_context codec reg height tx tx.input in
      bind_child FailBefore code_registry_addr _ st (Atomic st)
        (get_instance codec reg tx.code_addr)
        (get_instance-Returns codec reg FailBefore registered tx.code_addr)
        (λ cc reg_changes sound _.
          bind_code _ st (λ done st'. Atomic-put_all done.1 st st') tx.code_addr (cc.invoke ctx)
            (sound ctx).1)
        (λ e. refl)

  deployment-Atomic :
      (input : DeploymentInput) (st : State)
      → Atomic st (exec (deployment codec reg height tx input) st)
  unfolding deployment
  deployment-Atomic input st =
      let ctx = make_call_context codec reg height tx input.init_input in
      bind_child FailBefore code_registry_addr _ st (Atomic st) (deploy codec reg tx.hash input)
        (deploy-Returns codec reg FailBefore registered tx.hash input)
        (λ cc reg_changes sound _.
          bind_code _ st (λ done st'. Atomic-put_both reg_changes done.1 st st') tx.hash
            (cc.init ctx) (sound ctx).0)
        (λ e. refl)

  decoded_deployment-Atomic :
      (input : Option DeploymentInput) (st : State)
      → Atomic st (exec (decoded_deployment codec reg height tx input) st)
  unfolding decoded_deployment exec
  decoded_deployment-Atomic none st = refl
  decoded_deployment-Atomic (some input) st = deployment-Atomic input st

  by_code_addr-Atomic :
      (addr : Bytes) (st : State) → Atomic st (exec (by_code_addr codec reg height tx addr) st)
  unfolding by_code_addr execute_deployment
  by_code_addr-Atomic [] st = decoded_deployment-Atomic (codec.unmarshal_deployment tx.input) st
  by_code_addr-Atomic (b ∷ rest) st = execute_invoke-Atomic st

  -- A transaction whose execution returns an error, whichever, leaves the state as it was, if no registered
  -- chaincode fails after it has written to the tracker of the transaction.
  pub execute_chaincode_atomic :
      (st : State) (e : Error)
      → (exec (execute_chaincode codec reg height tx) st).0 ≡ err e
      → (exec (execute_chaincode codec reg height tx) st).1 ≡ st
  unfolding execute_chaincode
  execute_chaincode_atomic st e h =
      unchanged st e (exec (by_code_addr codec reg height tx tx.code_addr) st)
        (by_code_addr-Atomic tx.code_addr st) h
