-- ===== src/Execution/TxExecutor/Handed.antt =====
-- What a call of the registry hands back to the tracker of the transaction, which it leaves as it was.
use mathlib.Core.Path.{subst}
use svp_blockchain.Base.{
  ℕ, ◌==◌, Bool, true, false, ◌&&◌, Option, none, some, [], ◌∷◌, ◌++◌, ◌≡◌, refl, arith, All, inl,
  inr, Option-cases, sym, ◌∙◌,
}
use svp_blockchain.Base.Bytes.{Bytes, Slice, same_iff}
use svp_blockchain.Base.Assoc.{Assoc, lookup, insert}
use svp_blockchain.Execution.Prog.{Error, Prog, pure, raise, Outcome, ok, err, ◌>>=◌}
use svp_blockchain.Execution.Run.{on_child}
use svp_blockchain.Execution.Run.Child.{on_child-found, on_child-missing}
use svp_blockchain.Execution.Spec.{State, update, exec}
use svp_blockchain.Execution.Context.{Chaincode, DeploymentInput}
use svp_blockchain.Execution.Registry.{
  Codec, CodeRegistry, or_raise, found, get_code_info, set_code_info, get_instance, deploy,
}
use svp_blockchain.Execution.TxExecutor.{put_all}

unfoldable pub starts_with : Bytes → Bytes → Bool
starts_with [] key = true
starts_with (b ∷ prefix) [] = false
starts_with (b ∷ prefix) (c ∷ key) = b == c && starts_with prefix key

pub starts_with-append : (prefix key : Bytes) → starts_with prefix (prefix ++ key) ≡ true
unfolding starts_with
starts_with-append [] key = refl
starts_with-append (b ∷ prefix) key = ground (arith, starts_with-append prefix key)

abbrev pub Under : Bytes → Assoc Slice → Type 0
Under prefix = All (λ (entry : Bytes × Slice). starts_with prefix entry.0 ≡ true)

pub insert-Under :
    (prefix key : Bytes) (value : Slice) (changes : Assoc Slice)
    → Under prefix changes
    → Under prefix (insert (prefix ++ key) value changes)
unfolding insert
insert-Under prefix key value [] u = (starts_with-append prefix key, tt)
insert-Under prefix key value ((j, w) ∷ rest) u =
    ground (arith, insert-Under prefix key value rest, starts_with-append prefix key)

pub exec-bind {ℓ κ} :
    {A : Type ℓ} {B : Type κ} (p : Prog A) (f : A → Prog B) (st : State)
    → exec (p >>= f) st
      ≡ elim (exec p st).0 [ ok a ↦ exec (f a) (exec p st).1 | err e ↦ (err e, (exec p st).1) ]
unfolding exec
exec-bind (pure a) f st = refl
exec-bind (raise e) f st = refl
exec-bind (Prog.get_state key go) f st = exec-bind (go (st key)) f st
exec-bind (Prog.set_state key value go) f st = exec-bind go f (update st key value)

pub exec-put_all_outside :
    (prefix : Bytes) (changes : Assoc Slice) (st : State) (key : Bytes)
    → Under prefix changes
    → starts_with prefix key ≡ false
    → (exec (put_all changes) st).1 key ≡ st key
unfolding exec put_all
exec-put_all_outside prefix [] st key u h = refl
exec-put_all_outside prefix ((j, v) ∷ rest) st key u h =
    exec-put_all_outside prefix rest (update st j v) key u.1 h ∙ ground (arith, same_iff j key)

-- What a call returns is in `P`.
abbrev pub Returns {ℓ} : {A : Type ℓ} → (A → Type 0) → Prog A → Type 0
Returns P (pure a) = P a
Returns P (raise e) = Unit {0}
Returns P (Prog.get_state key next) = (value : Slice) → Returns P (next value)
Returns P (Prog.set_state key value next) = Returns P next

Returns-bind {ℓ κ} :
    {A : Type ℓ} {B : Type κ} (P : B → Type 0) (p : Prog A) (f : A → Prog B)
    → ((a : A) → Returns P (f a))
    → Returns P (p >>= f)
Returns-bind P (pure a) f h = h a
Returns-bind P (raise e) f h = tt
Returns-bind P (Prog.get_state key next) f h = λ value. Returns-bind P (next value) f h
Returns-bind P (Prog.set_state key value next) f h = Returns-bind P next f h

-- every chaincode that a driver of the registry gives is in `P`
abbrev pub Registered : CodeRegistry → (Chaincode → Type 0) → Type 0
Registered reg P =
    (d : ℕ) (driver : Bytes → Option Chaincode) (id : Bytes) (cc : Chaincode)
    → reg d ≡ some driver
    → driver id ≡ some cc
    → P cc

module _ (codec : Codec) (reg : CodeRegistry) (P : Chaincode → Type 0)
    (registered : Registered reg P) where
  found-Returns :
      (o : Option Chaincode) → ((cc : Chaincode) → o ≡ some cc → P cc) → Returns P (found o)
  found-Returns none h = tt
  found-Returns (some cc) h = h cc refl

  or_raise-Returns {ℓ} :
      {A : Type ℓ} (o : Option A) (f : A → Prog Chaincode)
      → ((a : A) → o ≡ some a → Returns P (f a))
      → Returns P (or_raise o f)
  or_raise-Returns none f h = tt
  or_raise-Returns (some a) f h = h a refl

  pub get_instance-Returns : (code_addr : Bytes) → Returns P (get_instance codec reg code_addr)
  unfolding get_instance
  get_instance-Returns code_addr = Returns-bind P (get_code_info codec reg code_addr) _ (λ info.
      or_raise-Returns (reg info.driver_type) _ (λ driver d.
        found-Returns (driver info.code_id)
          (λ cc e. registered info.driver_type driver info.code_id cc d e)))

  pub deploy-Returns :
      (code_addr : Bytes) (input : DeploymentInput) → Returns P (deploy codec reg code_addr input)
  unfolding deploy
  deploy-Returns code_addr input =
      let info = input.code_info in
      or_raise-Returns (reg info.driver_type) _ (λ driver d.
        Returns-bind P (set_code_info codec reg code_addr info)
          (λ done. found (driver info.code_id))
          (λ done.
            found-Returns (driver info.code_id)
              (λ cc e. registered info.driver_type driver info.code_id cc d e)))

-- in the terms of `exec`
abbrev pub Handed {ℓ} :
    {A : Type ℓ} → (A → Type 0) → Bytes → State → Outcome (A × Assoc Slice) × State → Type 0
Handed P prefix st (ok (a, changes), st') = P a × Under prefix changes × (st' ≡ st)
Handed P prefix st (err e, st') = st' ≡ st

pub exec-on_child {ℓ} :
    {A : Type ℓ} (P : A → Type 0) (prefix : Bytes) (changes : Assoc Slice) (p : Prog A) (st : State)
    → Returns P p
    → Under prefix changes
    → Handed P prefix st (exec (on_child prefix changes p) st)
unfolding exec on_child
exec-on_child P prefix changes (pure a) st r u = (r, u, refl)
exec-on_child P prefix changes (raise e) st r u = refl
exec-on_child {A} P prefix changes (Prog.get_state key go) st r u =
    let Q = λ (q : Prog (A × Assoc Slice)). Handed P prefix st (exec q st) in
    elim (Option-cases (lookup (prefix ++ key) changes)) [
      | inl e ↦
          subst Q (sym (on_child-missing prefix changes key go e))
            (exec-on_child P prefix changes (go (st (prefix ++ key))) st (r (st (prefix ++ key))) u)
      | inr (v, e) ↦
          subst Q (sym (on_child-found prefix changes key go v e))
            (exec-on_child P prefix changes (go v) st (r v) u)
    ]
exec-on_child P prefix changes (Prog.set_state key value go) st r u =
    exec-on_child P prefix (insert (prefix ++ key) value changes) go st r
      (insert-Under prefix key value changes u)

module _ {ℓ} {A B : Type ℓ} (P : A → Type 0) (prefix : Bytes) (f : A × Assoc Slice → Prog B)
    (st : State) (Q : Outcome B × State → Type 0) where
  continue_handed :
      (r : Outcome (A × Assoc Slice) × State)
      → Handed P prefix st r
      → ((a : A) (changes : Assoc Slice)
          → P a
          → Under prefix changes
          → Q (exec (f (a, changes)) st))
      → ((e : Error) → Q (err e, st))
      → Q (elim r.0 [ ok a ↦ exec (f a) r.1 | err e ↦ (err e, r.1) ])
  continue_handed (ok (a, changes), st') h next failed =
      subst (λ s. Q (exec (f (a, changes)) s)) (sym h.2) (next a changes h.0 h.1)
  continue_handed (err e, st') h next failed = subst (λ s. Q (err e, s)) (sym h) (failed e)

  -- To prove `Q` of a call of the registry and what follows.
  pub bind_child :
      (p : Prog A)
      → Returns P p
      → ((a : A) (changes : Assoc Slice)
          → P a
          → Under prefix changes
          → Q (exec (f (a, changes)) st))
      → ((e : Error) → Q (err e, st))
      → Q (exec (on_child prefix [] p >>= f) st)
  bind_child p r next failed = subst Q (sym (exec-bind (on_child prefix [] p) f st)) (
      continue_handed (exec (on_child prefix [] p) st) (exec-on_child P prefix [] p st r tt) next
        failed)
