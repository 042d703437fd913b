-- ===== src/Execution/Code.antt =====
-- A chaincode with the two trackers that it is given: its own, in the call context, and by `SetTxTrk`
-- (execution/common/interface.go) that of the transaction, which has no prefix. The runner of
-- execution/evm writes to the latter what it has done on other addresses.
pub mod Induction
use svp_blockchain.Base.{none, some, ◌++◌}
use svp_blockchain.Base.Bytes.{Bytes, Slice}
use svp_blockchain.Base.Assoc.{Assoc, lookup, insert}
use svp_blockchain.Execution.Prog.{Error, Prog}
use svp_blockchain.Execution.Prog

pub data Code {ℓ} (A : Type ℓ) : Type ℓ where
  done : A → Code A
  fail : Error → Code A
  get_own : Bytes → (Slice → Code A) → Code A
  set_own : Bytes → Slice → Code A → Code A
  get_tx : Bytes → (Slice → Code A) → Code A
  set_tx : Bytes → Slice → Code A → Code A

-- A chaincode whose `SetTxTrk` does nothing, as that of all native code
unfoldable pub own_only {ℓ} : {A : Type ℓ} → Prog A → Code A
own_only (Prog.pure a) = done a
own_only (Prog.raise e) = fail e
own_only (Prog.get_state key next) = get_own key (λ value. own_only (next value))
own_only (Prog.set_state key value next) = set_own key value (own_only next)

-- A chaincode on a child that is spawned from the tracker of the transaction, and on the latter, as calls
-- on the latter, with the changes of the child handed back at the end
module _ {ℓ} {A : Type ℓ} (key_prefix : Bytes) where
  unfoldable pub on_trackers : Assoc Slice → Code A → Prog (A × Assoc Slice)
  on_trackers changes (done a) = Prog.pure (a, changes)
  on_trackers changes (fail e) = Prog.raise e
  on_trackers changes (get_own key next) =
      let full = key_prefix ++ key in
      elim (lookup full changes) [
        | some value ↦ on_trackers changes (next value)
        | none ↦ Prog.get_state full (λ value. on_trackers changes (next value))
      ]
  on_trackers changes (set_own key value next) =
      on_trackers (insert (key_prefix ++ key) value changes) next
  on_trackers changes (get_tx key next) =
      Prog.get_state key (λ value. on_trackers changes (next value))
  on_trackers changes (set_tx key value next) = Prog.set_state key value (on_trackers changes next)
