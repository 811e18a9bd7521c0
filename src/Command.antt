-- ===== src/Command.antt =====
-- cmd/snowcast_server and cmd/snowcast_backup: the flags, and what the node is started with.
pub mod Launch
pub mod Paths
