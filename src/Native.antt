-- ===== src/Native.antt =====
-- The built-in chaincodes: native/ of the repository.
pub mod Balance
pub mod Accounts
pub mod PCoin
pub mod XCoin
pub mod Kvdb
pub mod TAddr
pub mod SRole
pub mod Tests
