-- ===== src/Failover.antt =====
-- The whole system: what was acknowledged survives the primary.
pub mod Kept
pub mod Tracked
pub mod Logged
pub mod Requests
pub mod Answered
pub mod Survives
pub mod Polled
pub mod Started
pub mod Leads
pub mod Repeated
pub mod Doubled
pub mod Raced
pub mod Overtaken
pub mod Unsynced
