-- ===== src/Channel.antt =====
-- channel/socket.go: a socket channel, its operations, and the manager of all channels.
pub mod Types
pub mod Monad
pub mod Itoa
pub mod Handlers
pub mod Delivery
pub mod Wait
pub mod Subscribe
pub mod Unsubscribe
pub mod Incoming
pub mod Calls
pub mod Invariant
pub mod Acks
pub mod Steps
pub mod Held
pub mod Faults
pub mod Pausing
pub mod Routing
pub mod Registry
pub mod Acknowledge
pub mod Recovery
