-- ===== src/Server.antt =====
-- The server (Core): what it checks of a task, and how it takes the events of nodes in. From
-- crates/uprava-server/src.
pub mod Support
pub mod Task
pub mod Tables
pub mod Rows
pub mod Projection
pub mod Updates
pub mod Apply
pub mod Records
pub mod Ingest
pub mod Publication
pub mod Ownership
pub mod Control
