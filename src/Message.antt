-- ===== src/Message.antt =====
-- agent-mesh-core/src/lib.rs: messages, their references, and the bounds on both.
pub mod Kind
pub mod Outcome
pub mod State
pub mod PrincipalKind
pub mod MediaBinding
pub mod Principal
pub mod Ref
pub mod Draft
pub mod Bounds
pub mod Digest
pub mod Examples
