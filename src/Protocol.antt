-- ===== src/Protocol.antt =====
-- crates/bridge-protocol: the frames of a stream and their wire format.
pub mod Frame
pub mod Codec
