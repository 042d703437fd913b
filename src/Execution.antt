-- ===== src/Execution.antt =====
-- Chaincode execution: execution/ of the repository.
pub mod Prog
pub mod Code
pub mod Tracker
pub mod Run
pub mod Spec
pub mod Context
pub mod Registry
pub mod TxExecutor
pub mod BlkExecutor
pub mod Tests
