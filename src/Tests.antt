-- ===== src/Tests.antt =====
-- The theorems applied to small concrete data, and runs of the operations on them.
mod Fixtures
mod Merkle
mod State
mod Riblt
mod Bloom
mod Message
mod Membership
mod Routes
mod Ribbon
mod RfRiblt
mod RbfRiblt
mod Replication
