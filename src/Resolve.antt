-- ===== src/Resolve.antt =====
-- agent-mesh-core/src/lib.rs: `resolve`, which finds the one endpoint that a selector means.
pub mod Defs
pub mod Steps
pub mod Laws
pub mod Narrowing
pub mod Choice
pub mod Examples
