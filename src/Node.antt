-- ===== src/Node.antt =====
-- The validator set of a node: node/role_store.go.
pub mod RoleStore
pub mod Tests
