-- ===== src/Discovery.antt =====
-- crates/bridge-discovery: the beacons and the directory of peers found on the network.
pub mod Beacon
pub mod Directory
pub mod Udp
pub mod Unified
