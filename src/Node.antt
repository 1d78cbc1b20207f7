-- ===== src/Node.antt =====
-- The daemon that runs on a node: crates/uprava-node/src.
pub mod State
pub mod Merge
pub mod Outbox
pub mod Cancellation
pub mod Events
pub mod Causal
pub mod Metadata
pub mod Execution
pub mod Git
pub mod Warnings
pub mod Store
pub mod Workspace
pub mod Task
pub mod Terminal
