-- ===== src/Brain.antt =====
-- brain.go: the conversation over text messages.
pub mod Suggest
pub mod Turns
pub mod Model
