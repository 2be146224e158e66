-- ===== src/Notifications.antt =====
-- crates/bridge-notifications: mirroring of notifications between devices.
pub mod Types
pub mod Policy
pub mod Guard
pub mod Engine
