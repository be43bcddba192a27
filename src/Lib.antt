-- ===== src/Lib.antt =====
-- Verification library of the agent mesh, a local mailbox for coding agents.
--
-- The program has three crates. `agent-mesh-core` holds the protocol's pure parts: who an agent is,
-- what a message may hold, who may reach whom, how a selector finds an agent, and what two hosts
-- say to each other. `agent-mesh-store` keeps endpoints and messages in SQLite. `vvagent` is the
-- command line, the tool server and the bridge process on top.
--
-- How the parts interact: a caller names a recipient by a selector (Selector), which is resolved
-- among the known endpoints (Resolve, by the matching and nearness of Address). A draft (Message)
-- is checked against its bounds, and the recipient's policy (Policy) decides at each gate whether
-- its sender may do that much. What the recipient's provider can do (Capability) fixes how the
-- message reaches it. The message lands in the recipient's mailbox, where it is claimed, answered,
-- cancelled or expires (Store). Mail for another host leaves as frames (Bridge).
--
-- File                      Code
-- Base                      the standard library's strings, slices, options and integers
-- Error                     agent-mesh-core/src/lib.rs: ErrorCode, MeshError, Result
-- Address                   agent-mesh-core/src/address.rs: Level, Segment, Address
-- Identity                  agent-mesh-core/src/lib.rs: Opaque, Alias, PeerLabel, RuntimeKind, AgentState
-- Selector                  agent-mesh-core/src/lib.rs: Selector::parse, RemoteSelector::parse
-- Endpoint                  agent-mesh-core/src/lib.rs: Locator, Endpoint, qualified_name, qualified_address
-- Resolve                   agent-mesh-core/src/lib.rs: Origin, resolve
-- Message                   agent-mesh-core/src/lib.rs: Kind, Outcome, State, Principal, Ref, Draft
-- Policy                    agent-mesh-core/src/lib.rs: Gate, Admit, Policy, Request, Decision, Policy::evaluate
-- Capability                agent-mesh-core/src/capability.rs
-- Bridge                    agent-mesh-core/src/bridge.rs: Hello, Frame, WireError, the codec, Decoder
-- Store                     agent-mesh-store/src/lib.rs. The operations stand in Send (send_as), Receive
--                           (claim, claim_outbound), Respond (respond, confirm_interrupt), Ending (cancel,
--                           sweep), Binding (bind, authenticate), Unbinding (unbind, ensure_local_user),
--                           Directory (endpoint, policy, capabilities and what sets them), Activation
--                           (activatable, record_activation, the budgets), Inbox (inbox, response_for,
--                           interrupt_target), Groups, Listing (the lists, audit_for, name_of); Tables,
--                           Rows, Queries and Admission hold what these use, and Reachable the relation
--                           of their steps
-- Store.Peers               agent-mesh-store/src/lib.rs: Pins (pin_peer, peer, set_peer_trust), Leases
--                           (acquire_peer_lease, release_peer_lease), Proxies (ensure_proxy, proxy,
--                           proxy_caller), Retire (retire_peer), Inbound (ingest), Outbound (outbound,
--                           forwarded, forward_failed, confirm_remote_cancel), Resolutions, Attachments
--
-- In each folder `Defs`, or the module that is named for a type, holds the definitions; the other
-- modules hold what is proved of them, and `Examples` runs them on concrete values.
--
-- How code becomes definitions. A `&str` is a list of code points (`Text`), and its length is the
-- length of its UTF-8 bytes (`len`). A method that changes its object returns the object after it;
-- one that fails returns a `Result`. A `u32` or `u64` that the code only compares, prints or counts
-- is a natural number; where it is read from text or bytes the width is checked as the code checks
-- it. An `i64` that can be negative is an integer. A chain of early returns is a `do` block.
--
-- The store is a record of tables, a table a list of rows, and an SQL statement a function of that
-- list: UPDATE is `update`, count(*) is `length` of `keep`, sum is `total`, ORDER BY an insertion
-- sort. An operation takes the store and returns its answer with the store that it commits; where
-- the code returns before the commit, that is the store as it was. A clock reading and each fresh id
-- are arguments. SQLite's unique keys are checked where a row is inserted under a fresh id, and are
-- a hypothesis on the store elsewhere (`Unique`, `Keyed`).
--
-- No fuel is used: every loop runs over a list or a text.
--
-- Arguments of the definitions, for what lies outside the code: whether a path is absolute on this
-- host (`std::path`), the JSON of a frame, a hello and the references (`serde_json`), SHA-256
-- (`sha2`), and the operating system's random bytes. The proofs ask of the JSON of frames only that
-- what is written is read back and is not empty (`JsonRoundTrips`).
--
-- `ingest` reads the clock at the lease, the proxy, the caller, the budget, and the send or the two
-- transactions of the response, so its clock is a function from the reading's place. `send_as`,
-- `claim` and `cancel` take one reading, and `respond` one for each of its two transactions, where the
-- code reads the clock again to check a peer's lease. An endpoint that is minted gets an id that no
-- message is addressed to (`NoMail`), which the message table's foreign key to the endpoints gives.
-- A `Peer` and a `Proxy` are their rows, and an answer to a question is a value where the code has
-- columns of which some are NULL.
--
-- Not modelled: the store's file, its opening and its migrations between schema versions, and SQLite's
-- own failures, except a unique key that a fresh id meets; the command line, the tool server, the
-- adapters, the reconciliation with a runtime's report, the copying of attachments and the Python
-- bindings, which wrap the store or drive processes and files; the clock's dates (time.rs); serde
-- attributes beyond that, the printing of an error, file permissions, processes, pipes and threads.
mod Base
pub mod Error
pub mod Address
pub mod Identity
pub mod Message
pub mod Selector
pub mod Endpoint
pub mod Resolve
pub mod Policy
pub mod Capability
pub mod Bridge
pub mod Store
