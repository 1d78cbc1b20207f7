-- ===== src/Protocol.antt =====
-- The wire protocol that Core and Node share: crates/uprava-protocol/src.
pub mod Json
pub mod Reference
pub mod Domain
pub mod Workspace
pub mod Task
pub mod Command
pub mod Event
pub mod Payload
pub mod Response
