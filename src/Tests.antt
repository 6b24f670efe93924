-- ===== src/Tests.antt =====
-- Each theorem of the header's list at a concrete input, and runs of the code on small inputs.
mod Channel
mod Manager
mod Values
mod Connection
mod Queue
mod Rest
mod Auth
mod Issue
mod Session
mod Lost
mod Facade
