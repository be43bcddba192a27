-- ===== src/Selector.antt =====
-- agent-mesh-core/src/lib.rs: `Selector` and `RemoteSelector`, what a caller typed.
pub mod Defs
pub mod Remote
