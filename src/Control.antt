-- ===== src/Control.antt =====
-- internal/control/grpc.go: the requests of clients.
pub mod Replicator
pub mod Handlers
pub mod Stream
pub mod Drain
pub mod Handshake
pub mod Outcome
pub mod Leave
pub mod Tune
