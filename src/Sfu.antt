-- ===== src/Sfu.antt =====
-- src/mediasoupv1/mod.rs: the SFU of one media server.
pub mod Platform
pub mod Recording
pub mod Server
pub mod Queries
pub mod Closing
pub mod Leaving
pub mod Shards
pub mod Transports
pub mod Control
pub mod Recreation
pub mod Creation
pub mod Consuming
pub mod Batch
pub mod Ports
pub mod Kind
pub mod Removing
pub mod Reachable
pub mod Start
pub mod Producing
pub mod Rows
pub mod Joining
pub mod Example
mod Tests
mod Runs
mod Trials
mod Takes
