-- ===== src/Store/Peers.antt =====
-- agent-mesh-store/src/lib.rs: peer hosts, their leases and proxies, and the mail that crosses.
pub mod Pins
pub mod Leases
pub mod Proxies
pub mod Retire
pub mod Kept
pub mod Carrying
pub mod Emptying
pub mod Exclusive
pub mod Pinned
pub mod Crossing
pub mod Emptied
pub mod Redelivery
pub mod Answered
pub mod Inbound
pub mod Outbound
pub mod Resolutions
pub mod Attachments
