-- ===== src/State.antt =====
-- The node's data: state/src/storage and state/src/checker.
pub mod Dash
pub mod Storage
pub mod Checker
