-- ===== src/Identity.antt =====
-- crates/bridge-identity: keys, the trust store and the pairing ceremony.
pub mod Keys
pub mod Trust
pub mod Pairing
