-- ===== src/Server.antt =====
-- The HTTP handlers (auth_http.go, ingest.go, server.go, account.go). A handler takes the request's parts
-- that it reads, and gives a response and the state of the server.
pub mod State
pub mod SignIn
pub mod Tools
pub mod Webhooks
pub mod Checkins
pub mod Dashboard
pub mod Inbox
pub mod Voice
pub mod Pages
