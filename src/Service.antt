-- ===== src/Service.antt =====
-- src/service: the HTTP handlers, which decode a payload, call the SFU and answer.
pub mod Payload
pub mod Answers
pub mod Meetings
pub mod Media
pub mod Transports
pub mod Profiler
pub mod Capacities
pub mod Routes
pub mod Calls
pub mod Served
pub mod Plans
pub mod Follows
pub mod Planned
pub mod Refused
mod Tests
