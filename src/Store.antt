-- ===== src/Store.antt =====
-- agent-mesh-store/src/lib.rs: the durable mailbox.
pub mod Tables
pub mod Rows
pub mod Binding
pub mod Unbinding
pub mod Queries
pub mod Admission
pub mod Send
pub mod Receive
pub mod Ending
pub mod Branches
pub mod Counting
pub mod Accounting
pub mod Settling
pub mod Sweeping
pub mod Sequence
pub mod Claiming
pub mod Claims
pub mod Progress
pub mod Waking
pub mod Outcomes
pub mod Known
pub mod Replay
pub mod Capacity
pub mod Respond
pub mod Retiring
pub mod Responding
pub mod Directory
pub mod Activation
pub mod Inbox
pub mod Groups
pub mod Peers
pub mod Listing
pub mod Lifecycle
pub mod Bound
pub mod Rebinding
pub mod Releasing
pub mod Examples
pub mod Keeping
pub mod Reachable
