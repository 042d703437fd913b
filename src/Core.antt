-- ===== src/Core.antt =====
-- Blocks, votes, certificates and transactions: core/ of the repository.
pub mod Result
pub mod Crypto
pub mod Message
pub mod Transaction
pub mod QuorumCert
pub mod Block
pub mod Tests
