-- ===== src/System.antt =====
-- The system that the clients see: a primary and its standby, and then the promoted standby alone.
pub mod Steps
pub mod Sound
pub mod Restarts
pub mod Refined
