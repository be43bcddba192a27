-- ===== src/Capability.antt =====
-- agent-mesh-core/src/capability.rs: what a provider can do, and how a message reaches it.
pub mod Name
pub mod Mode
pub mod Defs
pub mod Activation
pub mod Laws
pub mod Examples
