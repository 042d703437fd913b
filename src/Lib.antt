-- ===== src/Lib.antt =====
-- The SVP blockchain node: consensus with its quorum certificates, votes and stake, execution of blocks,
-- the Merkle tree of the state, and the built-in chaincodes.
--
-- The program. Consensus (consensus/) proposes blocks and counts votes for them (consensus/status.go);
-- votes make a quorum certificate (core/quorum_cert.go, core/vote.go), which is checked against the
-- validators of the role store (node/role_store.go). A committed block is executed by
-- execution/blk_executor.go, which runs its transactions concurrently and merges their changes in
-- order; a transaction (execution/tx_executer.go) deploys or invokes a chaincode, which reads and
-- writes through trackers (execution/common/state_tracker.go). native/ has the built-in chaincodes.
--
-- The files.
-- Base: shared names, byte strings, association lists for Go's maps, sets of keys, machine words.
-- Core: results, keys and signatures (core/crypto.go), the signed messages (`appendUint32` and
--   `appendUint64`), certificates and votes. `validate`, `build` and `validate_vote` are
--   `QuorumCert.Validate`, `QuorumCert.Build` and `Vote.Validate`; Core/QuorumCert/Accepts says what is
--   accepted and Core/QuorumCert/Build what is built. The signature scheme is a parameter (`Scheme`)
--   with the laws that the code relies on.
--   Core/Transaction and Core/Block have the hash, the signature and the check of core/transaction.go
--   and core/block.go, over SHA3 as a parameter, and `vote_block` is `Block.Vote`.
-- Node: the role store, with the operations under their names; Node/RoleStore/Index has its invariant
--   and Node/RoleStore/Members what adding and deleting a validator do to it.
-- Consensus: Window is `window` of consensus/status.go with `update` and `vote`, Tally the proposal and
--   its votes (`startProposal`, `addVote`, `getVotes`), Pool the maps of consensus/state.go and
--   `cleanStateOnCommitted` of consensus/driver.go, Commit its `onCommit` and `commitRecursive` alone.
--   Node has the state of a node and the monad of its handlers, in which a nil pointer and a fatal error
--   end the run; Driver, Rotator and Validator have the handlers of consensus/driver.go, rotator.go,
--   pacemaker.go and validator.go, each from the lock `mtxUpdate` on
--   (`onReceiveQC`, which takes the lock twice, is one step), over storage, transaction pool,
--   execution, clock, random numbers and the room on the stack as an interface (`Services`). Steps has a step
--   for each of them, for the commit of a fetched block and for what changes beside the lock, and the
--   logic by which what every handler keeps is put together. Validator/InOrder writes out what a
--   proposal is checked for.
-- Merkle: TreeCalc is the arithmetic of merkle/tree_calc.go, Position and Tree are merkle/types.go and
--   merkle/tree.go, Store is `MapStore` of merkle/store.go. Tree/Spec computes every node from the
--   leaves; Group, Load, Parents, Level, Update, Commit and Verify lead from one group to the whole tree.
-- TxPool: `txStore` of txpool/txstore.go with the heap of container/heap; Store has its operations under
--   their names and `requestTxList`'s check of an answer, Pool what txpool/txpool.go adds to them.
-- Execution: Prog is a chaincode as the sequence of its reads and writes, with errors and recovered
--   panics as `raise`; Tracker is `StateTracker`, whose bases are a stack; Run runs a chaincode on a
--   stack of trackers; Spec is the plain meaning on a map of keys to values. Code is a chaincode with its own
--   tracker and, by `SetTxTrk`, that of the transaction. TxExecutor is `executeChaincode` and what it
--   calls. BlkExecutor has the states of the workers and the steps
--   between them (`Step`, `Reach`): a step is one read, one write, one timeout or one merge, so every
--   interleaving is a sequence of steps.
-- Native: the balance coding of execution/common/util.go and the chaincodes PCoin, XCoin, KVDB and TAddr,
--   each as `init`, `invoke` and `query`; SRole is native/srole/srole.go, which works on the role store.
--
-- Bounds. Words wrap at 2^64 where the code's do, views at 2^32, levels of a tree at 2^8. Every loop runs
-- over a list or over a chaincode's remaining calls, but for two: `Height` has 255 rounds of fuel, as its counter is a uint8, enough for
-- b^254 leaves; `onCommit` of
-- Consensus/Commit takes fuel, of which one more than the height of the block is enough where a parent is
-- one height below its child, and that of Consensus/Driver the room that the stack of the process has, any
-- number, since the code does not check that heights fall. The loops of the heap of transactions have the place or the
-- length as fuel. A chaincode is a well-founded tree of calls, so one that loops
-- for ever without a call is outside the model; one that loops with calls appears by its timeout only.
--
-- Not modelled: JSON, protocol buffers, base64 and hex codings (parameters), the locks themselves, timers,
-- logging, networking with the calls that fetch missing blocks and transactions from peers, storage on
-- disk, the genesis round and the virtual machine.
pub mod Base
pub mod Core
pub mod Consensus
pub mod Node
pub mod TxPool
pub mod Execution
pub mod Native
pub mod Merkle
