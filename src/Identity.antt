-- ===== src/Identity.antt =====
-- agent-mesh-core/src/lib.rs: opaque ids, aliases, peer labels, and the kinds of runtime.
pub mod Split
pub mod Opaque
pub mod Alias
pub mod PeerLabel
pub mod RuntimeKind
pub mod AgentState
