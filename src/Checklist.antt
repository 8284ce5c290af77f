-- ===== src/Checklist.antt =====
-- checklist.go: the interview, one question at a time.
pub mod Template
pub mod Replies
pub mod Sessions
pub mod Answers
