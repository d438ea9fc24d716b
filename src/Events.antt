-- ===== src/Events.antt =====
-- crates/events: the distributed scheduler of the daemons.
pub mod Keys
pub mod Bucket
pub mod Scheduler
mod Samples
mod Witnesses
