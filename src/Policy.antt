-- ===== src/Policy.antt =====
-- agent-mesh-core/src/lib.rs: the gates that decide how far a message may go.
pub mod TeamScope
pub mod Defs
pub mod Admission
pub mod Laws
pub mod Bounds
pub mod Examples
