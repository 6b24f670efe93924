-- ===== src/Protocol.antt =====
-- protocol/: the wire and consumer types that the components share.
pub mod Action
pub mod Messages
pub mod Json
pub mod QueueWire
pub mod Queue
pub mod Conversions
