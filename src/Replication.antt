-- ===== src/Replication.antt =====
-- internal/replication: the primary's coordinator, the backup's server, and the local coordinator.
pub mod Server
pub mod Coordinator
pub mod Dial
pub mod Local
pub mod Backup
pub mod Catchup
pub mod Retry
pub mod Commit
pub mod Settles
pub mod SettlesLocal
pub mod Recovery
pub mod Unsynced
