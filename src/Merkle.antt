-- ===== src/Merkle.antt =====
-- The Merkle-tree reconciliation protocol, reconciliation/src/merkle_tree.
pub mod Tree
pub mod Session
pub mod Sync
