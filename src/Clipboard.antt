-- ===== src/Clipboard.antt =====
-- crates/bridge-clipboard: clipboard synchronisation with echo suppression.
pub mod Content
pub mod Policy
pub mod Guard
pub mod Backend
pub mod Engine
