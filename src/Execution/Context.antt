-- ===== src/Execution/Context.antt =====
-- execution/common/call_context.go and the interfaces of execution/common/interface.go.
use svp_blockchain.Base.{ℕ, Option, none, some}
use svp_blockchain.Base.Bytes.{Bytes, Slice}
use svp_blockchain.Core.Transaction.{Transaction}
use svp_blockchain.Execution.Code.{Code}

-- `CallContextTx`, less its tracker, which the calls of a `Prog` go to
pub record CallContext : Type 0 where
  pub transaction : Option Transaction
  pub raw_sender : Slice
  pub raw_input : Bytes
  pub height : Option ℕ

unfoldable pub sender : CallContext → Slice
sender ctx = elim ctx.transaction [ none ↦ ctx.raw_sender | some tx ↦ some tx.sender ]

unfoldable pub block_height : CallContext → ℕ
block_height ctx = elim ctx.height [ none ↦ 0 | some h ↦ h ]

-- `CallContextQuery`: no block and no transaction
unfoldable pub query_context : Slice → Bytes → CallContext
query_context raw_sender raw_input = record {
  transaction = none;
  raw_sender = raw_sender;
  raw_input = raw_input;
  height = none;
}

-- The interface `Chaincode`; what `SetTxTrk` gives is the second tracker of `Code`.
pub record Chaincode : Type 0 where
  pub init : CallContext → Code (Unit {0})
  pub invoke : CallContext → Code (Unit {0})
  pub query : CallContext → Code Slice

pub record CodeInfo : Type 0 where
  pub driver_type : ℕ
  pub code_id : Bytes

pub record DeploymentInput : Type 0 where
  pub code_info : CodeInfo
  pub install_data : Bytes
  pub init_input : Bytes
