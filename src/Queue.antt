-- ===== src/Queue.antt =====
-- queue/manager.go: the requests of the queue API, and the worker loop.
pub mod Requests
pub mod Worker
pub mod Settling
pub mod Stopping
pub mod Queries
