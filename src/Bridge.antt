-- ===== src/Bridge.antt =====
-- agent-mesh-core/src/bridge.rs: `VVAM-BRIDGE/1`, what two peer hosts' bridges say to each other.
pub mod Frame
pub mod Hello
pub mod Codec
pub mod Decoder
pub mod WireErrors
pub mod Stream
pub mod Bounded
pub mod Examples
