-- ===== src/Riblt.antt =====
-- The rateless set reconciliation: symbols, and the engine that streams them.
pub mod Symbols
pub mod Decoder
pub mod Session
pub mod Receiver
pub mod Sender
pub mod EndToEnd
pub mod Protocol
