-- ===== src/Manager.antt =====
-- `SocketManager` of channel/socket.go: the channels by name, with reference counts.
pub mod Ops
pub mod Counts
pub mod Sound
pub mod Gets
pub mod Released
pub mod Runs
pub mod Refines
pub mod Marked
pub mod Turns
pub mod Recovered
