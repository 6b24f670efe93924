-- ===== src/Auth.antt =====
-- auth/manager.go: the token of the client, how it is obtained, and what it adds to requests.
pub mod Types
pub mod Tokens
pub mod Authenticate
pub mod Credentials
pub mod Attempts
pub mod Canonical
pub mod Issue
pub mod Lifecycle
