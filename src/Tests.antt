-- ===== src/Tests.antt =====
-- Concrete runs: test data, and the theorems applied to them.
pub mod Fixtures
mod Wire
mod Sync
mod Peers
mod Connections
mod Files
mod Mirrored
mod Resumption
mod Sessions
mod Nearby
mod Listed
