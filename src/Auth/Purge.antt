-- ===== src/Auth/Purge.antt =====
-- auth.go, PurgeExpiredAuth: spent codes, dead sessions and old audit rows go.
use running_hackathon.Prelude.{◌+◌, ◌*◌, Bool, ltb}
use running_hackathon.Clock.{Time, Duration, day}
use running_hackathon.Sql
use running_hackathon.Db.{LoginCode, Store}
use running_hackathon.Auth.Codes.{login_code_window}

abbrev pub auth_audit_retention : Duration
auth_audit_retention = 180 * day

-- WHERE expires_at < now - window
abbrev pub is_spent : Time → LoginCode → Bool
is_spent now c = ltb (c.expires_at + login_code_window) now

unfoldable pub purge_expired_auth : Time → Store → Store
purge_expired_auth now s = record s {
  login_codes = Sql.delete (is_spent now) s.login_codes;
  auth_sessions = Sql.delete (λ a. ltb a.expires_at now) s.auth_sessions;
  auth_audit = Sql.delete (λ a. ltb (a.created_at + auth_audit_retention) now) s.auth_audit;
}
