-- ===== src/Client.antt =====
-- cmd/snowcast_control: the listener's command line.
pub mod Input
pub mod Session
pub mod Requested
pub mod Heard
