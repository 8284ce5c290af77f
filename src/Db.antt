-- ===== src/Db.antt =====
-- The rows of the store's tables (db.go, checklist.go, signals.go, transcripts.go, auth.go, and the
-- schema of store_sql.go). A nullable timestamp is an `Option Time`, and a nullable text, which the
-- program reads through COALESCE(…, ''), is a text.
use running_hackathon.Prelude.{ℕ, String, Option}
use running_hackathon.Clock.{Time, Duration}
use running_hackathon.Sql
use running_hackathon.Sql.{Table}

pub record User : Type 0 where
  pub id : ℕ
  pub phone : String
  pub name : String
  pub channel : String
  pub frequency : String
  pub ics_url : String
  pub interests : String
  pub onboarded_at : Option Time
  pub last_call_sid : String
  pub last_triggered_at : Option Time
  pub phone_verified_at : Option Time
  pub phone_verified_via : String
  pub call_started_at : Option Time
  pub created_at : Time

pub record Checkin : Type 0 where
  pub id : ℕ
  pub user_id : ℕ
  pub mood : Option ℕ
  pub summary : String
  pub topics : String
  pub raw : String
  pub created_at : Time

pub record Event : Type 0 where
  pub id : ℕ
  pub title : String
  pub starts_at : Time
  pub city : String
  pub url : String
  pub tags : String

pub record SuggestionRow : Type 0 where
  pub id : ℕ
  pub user_id : ℕ
  pub event_id : ℕ
  pub status : String
  pub created_at : Time

pub record MessageRow : Type 0 where
  pub id : ℕ
  pub user_id : ℕ
  pub role : String
  pub body : String

pub record Session : Type 0 where
  pub id : ℕ
  pub user_id : ℕ
  pub channel : String
  pub flow : String
  pub state : String
  pub started_at : Time

pub record ChecklistItem : Type 0 where
  pub id : ℕ
  pub user_id : ℕ
  pub session_id : ℕ
  pub key : String
  pub position : ℕ
  pub prompt : String
  pub status : String
  pub answer : String
  pub source : String
  pub asked_at : Option Time
  pub answered_at : Option Time

-- A row of `consents`: `user_id` beside the fields of Go's Consent.
pub record Consent : Type 0 where
  pub user_id : ℕ
  pub scope : String
  pub granted_at : Option Time
  pub revoked_at : Option Time
  pub source : String

pub record Signal : Type 0 where
  pub id : ℕ
  pub user_id : ℕ
  pub kind : String
  pub value : String
  pub unit : String
  pub source : String
  pub observed_at : Time
  pub ingested_at : Time
  pub expires_at : Time

pub record WebhookEvent : Type 0 where
  pub endpoint : String
  pub idempotency_key : String
  pub user_id : ℕ
  pub response : String

-- The user id 0 says that nobody owns the call yet (NULL in the table).
pub record Transcript : Type 0 where
  pub id : ℕ
  pub user_id : ℕ
  pub phone : String
  pub conversation_id : String
  pub call_sid : String
  pub direction : String
  pub status : String
  pub source : String
  pub summary : String
  pub body : String
  pub turns : ℕ
  pub duration : Duration
  pub started_at : Time
  pub received_at : Time

pub record LoginCode : Type 0 where
  pub id : ℕ
  pub phone : String
  pub code_hash : String
  pub attempts : ℕ
  pub created_at : Time
  pub expires_at : Time
  pub consumed_at : Option Time

pub record AuthSession : Type 0 where
  pub id : ℕ
  pub user_id : ℕ
  pub token_hash : String
  pub created_at : Time
  pub expires_at : Time
  pub last_seen_at : Option Time
  pub revoked_at : Option Time

pub record AuthAudit : Type 0 where
  pub id : ℕ
  pub phone : String
  pub user_id : ℕ
  pub event : String
  pub detail : String
  pub created_at : Time

pub record Store : Type 0 where
  pub users : Table User
  pub checkins : Table Checkin
  pub events : Table Event
  pub suggestions : Table SuggestionRow
  pub messages : Table MessageRow
  pub sessions : Table Session
  pub checklist_items : Table ChecklistItem
  pub consents : Table Consent
  pub signals : Table Signal
  pub webhook_events : Table WebhookEvent
  pub transcripts : Table Transcript
  pub login_codes : Table LoginCode
  pub auth_sessions : Table AuthSession
  pub auth_audit : Table AuthAudit

-- A store as the migrations leave it.
abbrev pub fresh_store : Store
fresh_store = record {
  users = Sql.empty;
  checkins = Sql.empty;
  events = Sql.empty;
  suggestions = Sql.empty;
  messages = Sql.empty;
  sessions = Sql.empty;
  checklist_items = Sql.empty;
  consents = Sql.empty;
  signals = Sql.empty;
  webhook_events = Sql.empty;
  transcripts = Sql.empty;
  login_codes = Sql.empty;
  auth_sessions = Sql.empty;
  auth_audit = Sql.empty;
}
