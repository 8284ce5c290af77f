-- ===== src/Signals.antt =====
-- signals.go: consent to share a signal, the observations, how long they are kept, and erasure.
pub mod Consents
pub mod Observations
pub mod Webhooks
pub mod Forget
