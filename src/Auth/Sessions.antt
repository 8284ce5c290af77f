-- ===== src/Auth/Sessions.antt =====
-- auth.go, the dashboard sessions and the audit trail: AuthSession.Active, RecordAuthEvent, AuthEvents,
-- StartAuthSession, AuthSessionUser, RevokeAuthSession, RevokeAllAuthSessions. The random token comes in as
-- an argument, and so does the digest of crypto/sha256.
pub mod Access
use running_hackathon.Prelude.{
  ℕ, zero, ◌+◌, ◌*◌, String, Bool, true, false, ◌&&◌, Option, none, some, List, [], ◌∷◌, map, ltb,
  ◌==◌, str_eq, if◌then◌else◌, is_some, not, take,
}
use mathlib.Core.List.{reverse}
use running_hackathon.Clock.{Time, Duration, day}
use running_hackathon.Outcome.{Result, ok, err, no_session, no_rows}
use running_hackathon.Sql
use running_hackathon.Str.{trim_space}
use running_hackathon.Db.{User, AuthSession, AuthAudit, Store}

abbrev pub auth_session_ttl : Duration
auth_session_ttl = 30 * day

-- AuthSession.Active
unfoldable pub is_active : Time → AuthSession → Bool
is_active now a = not (is_some a.revoked_at) && ltb now a.expires_at

abbrev pub phone_verified : User → Bool
phone_verified u = is_some u.phone_verified_at

-- The table is written with the time of the database's clock.
unfoldable pub record_auth_event : String → ℕ → String → String → Time → Store → Store
record_auth_event phone user_id event detail now s = record s {
  auth_audit =
      Sql.insert
        (λ id. record {
          id = id;
          phone = phone;
          user_id = user_id;
          event = event;
          detail = detail;
          created_at = now;
        })
        s.auth_audit;
}

-- The audit trail of a number, newest first: the rows stand in the order in which they were written.
unfoldable pub auth_events : String → ℕ → Store → List String
auth_events phone limit s =
    map (λ a. a.event)
      (take limit
        (reverse (Sql.select (λ (a : AuthAudit). str_eq a.phone phone) s.auth_audit.rows)))

module _ (hash_secret : String → String) where
  abbrev pub has_token : String → AuthSession → Bool
  has_token token a = str_eq a.token_hash (hash_secret token)

  abbrev pub started : String → ℕ → Time → ℕ → AuthSession
  started token user_id now id = record {
    id = id;
    user_id = user_id;
    token_hash = hash_secret token;
    created_at = now;
    expires_at = now + auth_session_ttl;
    last_seen_at = some now;
    revoked_at = none;
  }

  -- `token` is what newSessionToken drew.
  unfoldable pub start_auth_session : String → ℕ → Time → Store → Result String × Store
  start_auth_session token user_id now s = (
    ok token,
    record s { auth_sessions = Sql.insert (started token user_id now) s.auth_sessions },
  )

-- UserByID
unfoldable pub user_by_id : ℕ → Store → Option User
user_by_id id s = Sql.first (λ (u : User). u.id == id) s.users.rows

owner_of_session : Option User → Result User
owner_of_session none = err no_rows
owner_of_session (some u) = if phone_verified u then ok u else err no_session

-- UPDATE auth_sessions SET last_seen_at=? WHERE id=?
touch : ℕ → Time → Store → Store
touch id now s = record s {
  auth_sessions =
      Sql.update (λ a. a.id == id) (λ a. record a { last_seen_at = some now }) s.auth_sessions;
}

pub resolve : Option AuthSession → Time → Store → Result User × Store
unfolding owner_of_session touch
resolve none now s = (err no_session, s)
resolve (some a) now s =
    if not (is_active now a)
    then (err no_session, s)
    else (owner_of_session (user_by_id a.user_id (touch a.id now s)), touch a.id now s)

module _ (hash_secret : String → String) where
  unfoldable pub auth_session_user : String → Time → Store → Result User × Store
  unfolding resolve
  auth_session_user token now s =
      if str_eq (trim_space token) ""
      then (err no_session, s)
      else resolve (Sql.first (has_token hash_secret token) s.auth_sessions.rows) now s

  unfoldable pub revoke_auth_session : String → Time → Store → Store
  revoke_auth_session token now s = record s {
    auth_sessions =
        Sql.update (λ a. has_token hash_secret token a && not (is_some a.revoked_at))
          (λ a. record a { revoked_at = some now }) s.auth_sessions;
  }

abbrev pub is_live_session_of : ℕ → AuthSession → Bool
is_live_session_of user_id a = (a.user_id == user_id) && not (is_some a.revoked_at)

-- The number of sessions ended, and the store.
unfoldable pub revoke_all_auth_sessions : ℕ → Time → Store → ℕ × Store
revoke_all_auth_sessions user_id now s = (
  Sql.count (is_live_session_of user_id) s.auth_sessions.rows,
  record s {
    auth_sessions =
        Sql.update (is_live_session_of user_id) (λ a. record a { revoked_at = some now })
          s.auth_sessions;
  },
)
