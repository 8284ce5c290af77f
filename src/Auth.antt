-- ===== src/Auth.antt =====
-- auth.go: signing in by a code sent to the number, and the sessions that this opens.
pub mod Codes
pub mod Sessions
pub mod Purge
