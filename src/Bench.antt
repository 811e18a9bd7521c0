-- ===== src/Bench.antt =====
-- cmd/snowcast_bench: the numbers of its flags, its loads, the watch over the backup, and the marks in a log.
pub mod Flags
pub mod Parsed
pub mod Load
pub mod Sweep
pub mod Warmup
pub mod Dispatch
pub mod Replay
pub mod Replayed
pub mod Phases
pub mod Marked
pub mod Monitor
