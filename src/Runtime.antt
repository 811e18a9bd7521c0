-- ===== src/Runtime.antt =====
-- internal/runtime: the streams of the stations.
pub mod Stream
pub mod Queues
pub mod Streamed
pub mod Bounds
pub mod Operator
pub mod Quit
pub mod Session
pub mod Serve
pub mod Audible
pub mod Served
