-- ===== src/State.antt =====
-- internal/state: the clients, the stations and the operations that the WAL replays.
pub mod Store
pub mod Apply
pub mod Maps
pub mod Stations
pub mod Effects
pub mod Invariant
pub mod Moves
pub mod Readmit
pub mod Disconnect
pub mod Sessions
pub mod Rollback
pub mod Allocate
pub mod Roster
pub mod Reconnect
pub mod Retune
pub mod Boot
