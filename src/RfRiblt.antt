-- ===== src/RfRiblt.antt =====
-- reconciliation/src/rf_riblt: the protocol that exchanges ribbon filters of the keys and then coded
-- symbols of the keys that both filters contain.
pub mod Wire
pub mod Protocol
pub mod Handlers
pub mod Fetch
pub mod Exchange
pub mod Agree
