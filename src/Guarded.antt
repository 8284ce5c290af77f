-- ===== src/Guarded.antt =====
-- The tables of the store that a conversation has no business with: the sign-in codes, sessions and audit of
-- auth.go, the consents, observations and deliveries of signals.go, the calls of transcripts.go, and the
-- events of db.go.
use running_hackathon.Sql.{Table}
use running_hackathon.Db.{
  Event, Consent, Signal, WebhookEvent, Transcript, LoginCode, AuthSession, AuthAudit, Store,
}

pub record Guarded : Type 0 where
  pub events : Table Event
  pub consents : Table Consent
  pub signals : Table Signal
  pub webhook_events : Table WebhookEvent
  pub transcripts : Table Transcript
  pub login_codes : Table LoginCode
  pub auth_sessions : Table AuthSession
  pub auth_audit : Table AuthAudit

abbrev pub guarded : Store → Guarded
guarded s = record {
  events = s.events;
  consents = s.consents;
  signals = s.signals;
  webhook_events = s.webhook_events;
  transcripts = s.transcripts;
  login_codes = s.login_codes;
  auth_sessions = s.auth_sessions;
  auth_audit = s.auth_audit;
}
