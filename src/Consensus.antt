-- ===== src/Consensus.antt =====
-- The consensus directory: the stake window and the vote count of consensus/status.go.
pub mod Window
pub mod Tally
pub mod Pool
pub mod Commit
pub mod Tests
pub mod Node
pub mod Driver
pub mod Rotator
pub mod Validator
pub mod Steps
