-- ===== src/Execution/BlkExecutor.antt =====
-- execution/blk_executor.go: the workers that execute the transactions of a block at the same time,
-- and merge them in order. A schedule is a sequence of steps: a worker starts a transaction, makes
-- one call of its chaincode, times out, or merges when its turn has come. A transaction starts
-- whenever the schedule says so: the job channel and `concurrentLimit` allow fewer schedules.
mod Defs
mod Dependencies
mod Invariant
pub mod Serial
pub mod Determinism
pub mod Tests
pub use Defs.*
