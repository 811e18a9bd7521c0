-- ===== src/Wal.antt =====
-- pkg/wal/wal.go: the write-ahead log, from the bytes of its file to the list of its entries.
pub mod File
pub mod Log
pub mod Records
pub mod Holds
pub mod Append
pub mod Torn
pub mod Fuel
pub mod Highest
