-- ===== src/Address.antt =====
-- agent-mesh-core/src/address.rs: positional addresses such as `s2t2w3f1p2`.
-- `Defs` holds the types and operations, `Decimal` the number format they print and parse with.
pub mod Decimal
pub mod Defs
pub mod Order
pub mod RoundTrip
pub mod Accepted
pub mod Matching
pub mod Join
pub mod Nearness
pub mod Examples
