-- ===== src/Execution/TxExecutor.antt =====
-- execution/tx_executer.go: one transaction, as calls on its own tracker `txTrk`. The registry and the
-- chaincode run on trackers that are spawned from it, and are merged into it only on success; the
-- chaincode also gets `txTrk` itself, by `SetTxTrk`.
pub mod Handed
pub mod Atomic
pub mod Isolation
use svp_blockchain.Base.{Option, none, some, List, [], ◌∷◌, ℕ}
use svp_blockchain.Base.Bytes.{Bytes, Slice}
use svp_blockchain.Base.Assoc.{Assoc}
use svp_blockchain.Core.Transaction.{Transaction}
use svp_blockchain.Execution.Prog.{Prog, pure, raise, ◌>>=◌, ◌>>◌, put, bad_input}
use svp_blockchain.Execution.Run.{on_child}
use svp_blockchain.Execution.Code.{on_trackers}
use svp_blockchain.Execution.Context.{CallContext, DeploymentInput}
use svp_blockchain.Execution.Registry.{
  Codec, CodeRegistry, code_registry_addr, get_instance, deploy,
}

-- `txTrk.Merge(child)`
unfoldable pub put_all : Assoc Slice → Prog (Unit {0})
put_all [] = pure tt
put_all ((key, value) ∷ rest) = Prog.set_state key value (put_all rest)

module _ (codec : Codec) (reg : CodeRegistry) (height : ℕ) (tx : Transaction) where
  unfoldable pub make_call_context : Bytes → CallContext
  make_call_context input = record {
    transaction = some tx;
    raw_sender = none;
    raw_input = input;
    height = some height;
  }

  unfoldable pub deployment : DeploymentInput → Prog (Unit {0})
  unfolding make_call_context
  deployment input = do
    (cc, reg_changes) ← on_child code_registry_addr [] (deploy codec reg tx.hash input)
    (done, init_changes) ← on_trackers tx.hash [] (cc.init (make_call_context input.init_input))
    put_all reg_changes
    put_all init_changes

  unfoldable pub decoded_deployment : Option DeploymentInput → Prog (Unit {0})
  decoded_deployment none = raise bad_input
  decoded_deployment (some input) = deployment input

  unfoldable pub execute_deployment : Prog (Unit {0})
  unfolding decoded_deployment
  execute_deployment = decoded_deployment (codec.unmarshal_deployment tx.input)

  unfoldable pub execute_invoke : Prog (Unit {0})
  unfolding make_call_context
  execute_invoke = do
    (cc, reg_changes) ← on_child code_registry_addr [] (get_instance codec reg tx.code_addr)
    (done, changes) ← on_trackers tx.code_addr [] (cc.invoke (make_call_context tx.input))
    put_all changes

  -- `len(txe.tx.CodeAddr()) == 0`
  unfoldable pub by_code_addr : Bytes → Prog (Unit {0})
  by_code_addr [] = execute_deployment
  by_code_addr (b ∷ rest) = execute_invoke

  unfoldable pub execute_chaincode : Prog (Unit {0})
  unfolding by_code_addr
  execute_chaincode = by_code_addr tx.code_addr
