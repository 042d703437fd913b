-- ===== src/Merkle.antt =====
-- The Merkle tree: merkle/ of the repository.
pub mod TreeCalc
pub mod Position
pub mod Tree
pub mod Store
pub mod Tests
