-- ===== src/Examples.antt =====
-- The theorems at concrete values: a node with a few commands, events and runtimes.
pub mod Fixtures
pub mod Channels
pub mod Merging
pub mod Retention
pub mod Cancelling
pub mod Executing
pub mod Storing
pub mod Reading
pub mod Inspecting
pub mod Attaching
pub mod Requesting
pub mod Ingesting
pub mod Conflicts
