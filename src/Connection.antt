-- ===== src/Connection.antt =====
-- connection/connection.go: the life of the connection, its read loops, its reconnections and pings.
pub mod Types
pub mod Ops
pub mod Pings
pub mod Steps
pub mod Budget
pub mod Endings
pub mod Lost
pub mod Waiting
pub mod Answers
pub mod Backoff
