-- ===== src/Signals/Forget.antt =====
-- signals.go, ForgetUser: everything held about one person goes, in one transaction. The foreign keys
-- cascade from `users` to rows that the statements before have deleted.
use running_hackathon.Prelude.{
  ℕ, String, Bool, true, false, not, ◌&&◌, ◌||◌, ◌≡◌, ◌≢◌, refl, sym, ◌∙◌, List, [], ◌∷◌, arith,
  leb, ◌==◌, str_eq,
}
use running_hackathon.Sql
use running_hackathon.Sql.{Table}
use running_hackathon.Sql.Laws.{count-delete_zero, count-delete_le, select-delete_same}
use running_hackathon.Db.{
  User, Checkin, SuggestionRow, MessageRow, Session, ChecklistItem, Consent, Signal, WebhookEvent,
  Transcript, LoginCode, AuthSession, AuthAudit, Store,
}

-- phone IN (SELECT phone FROM users WHERE id=?)
unfoldable pub is_phone_of : ℕ → Table User → String → Bool
is_phone_of id users phone =
    leb 1 (Sql.count (λ (u : User). (u.id == id) && str_eq u.phone phone) users.rows)

-- WHERE user_id IS NULL AND phone IN …
abbrev is_unowned_of : ℕ → Table User → Transcript → Bool
is_unowned_of id users t = (t.user_id == 0) && is_phone_of id users t.phone

-- A NULL user_id is 0 here, and no profile has that id: keys start at 1.
unfoldable pub forget_user : ℕ → Store → Store
forget_user id s = record s {
  signals = Sql.delete (λ r. r.user_id == id) s.signals;
  consents = Sql.delete (λ r. r.user_id == id) s.consents;
  checklist_items = Sql.delete (λ r. r.user_id == id) s.checklist_items;
  sessions = Sql.delete (λ r. r.user_id == id) s.sessions;
  messages = Sql.delete (λ r. r.user_id == id) s.messages;
  checkins = Sql.delete (λ r. r.user_id == id) s.checkins;
  suggestions = Sql.delete (λ r. r.user_id == id) s.suggestions;
  webhook_events = Sql.delete (λ r. r.user_id == id) s.webhook_events;
  transcripts =
      Sql.delete (is_unowned_of id s.users) (Sql.delete (λ r. r.user_id == id) s.transcripts);
  auth_sessions = Sql.delete (λ r. r.user_id == id) s.auth_sessions;
  login_codes = Sql.delete (λ r. is_phone_of id s.users r.phone) s.login_codes;
  auth_audit =
      Sql.delete (λ r. is_phone_of id s.users r.phone)
        (Sql.delete (λ r. r.user_id == id) s.auth_audit);
  users = Sql.delete (λ r. r.id == id) s.users;
}

-- The store holds nothing under the profile's id, and no login code, audit row or unowned call under the
-- profile's number.
pub record IsForgotten (id : ℕ) (users : Table User) (s : Store) : Type 0 where
  pub profile : Sql.count (λ (r : User). r.id == id) s.users.rows ≡ 0
  pub signals : Sql.count (λ (r : Signal). r.user_id == id) s.signals.rows ≡ 0
  pub consents : Sql.count (λ (r : Consent). r.user_id == id) s.consents.rows ≡ 0
  pub items : Sql.count (λ (r : ChecklistItem). r.user_id == id) s.checklist_items.rows ≡ 0
  pub sessions : Sql.count (λ (r : Session). r.user_id == id) s.sessions.rows ≡ 0
  pub messages : Sql.count (λ (r : MessageRow). r.user_id == id) s.messages.rows ≡ 0
  pub checkins : Sql.count (λ (r : Checkin). r.user_id == id) s.checkins.rows ≡ 0
  pub suggestions : Sql.count (λ (r : SuggestionRow). r.user_id == id) s.suggestions.rows ≡ 0
  pub deliveries : Sql.count (λ (r : WebhookEvent). r.user_id == id) s.webhook_events.rows ≡ 0
  pub calls : Sql.count (λ (r : Transcript). r.user_id == id) s.transcripts.rows ≡ 0
  pub unowned_calls :
      Sql.count
        (λ (r : Transcript). (r.user_id == 0) && is_phone_of id users r.phone)
        s.transcripts.rows
      ≡ 0
  pub sign_ins : Sql.count (λ (r : AuthSession). r.user_id == id) s.auth_sessions.rows ≡ 0
  pub codes : Sql.count (λ (r : LoginCode). is_phone_of id users r.phone) s.login_codes.rows ≡ 0
  pub audit :
      Sql.count
        (λ (r : AuthAudit). (r.user_id == id) || is_phone_of id users r.phone)
        s.auth_audit.rows
      ≡ 0

twice_deleted {ℓ} :
    {A : Type ℓ} (p w : A → Bool) (rs : List A)
    → Sql.count p rs ≡ 0
    → Sql.count p (Sql.delete_rows w rs) ≡ 0
twice_deleted p w rs h = omega (arith, count-delete_le p w rs)

-- What remains of a table after two DELETEs passes neither of their tests.
deleted_by_both {ℓ} :
    {A : Type ℓ} (p w : A → Bool) (rs : List A)
    → Sql.count (λ r. p r || w r) (Sql.delete_rows w (Sql.delete_rows p rs)) ≡ 0
unfolding Sql.count Sql.delete_rows
deleted_by_both p w [] = refl
deleted_by_both p w (r ∷ rs) = ground (arith, deleted_by_both p w rs)

-- Forgetting a person leaves nothing under the id and nothing under the number that the profile had.
pub forget_user-IsForgotten : (id : ℕ) (s : Store) → IsForgotten id s.users (forget_user id s)
unfolding forget_user Sql.delete
forget_user-IsForgotten id s = record {
  profile = count-delete_zero (λ (r : User). r.id == id) (λ r. r.id == id) (λ r h. h) s.users.rows;
  signals =
      count-delete_zero (λ (r : Signal). r.user_id == id) (λ r. r.user_id == id) (λ r h. h)
        s.signals.rows;
  consents =
      count-delete_zero (λ (r : Consent). r.user_id == id) (λ r. r.user_id == id) (λ r h. h)
        s.consents.rows;
  items =
      count-delete_zero (λ (r : ChecklistItem). r.user_id == id) (λ r. r.user_id == id) (λ r h. h)
        s.checklist_items.rows;
  sessions =
      count-delete_zero (λ (r : Session). r.user_id == id) (λ r. r.user_id == id) (λ r h. h)
        s.sessions.rows;
  messages =
      count-delete_zero (λ (r : MessageRow). r.user_id == id) (λ r. r.user_id == id) (λ r h. h)
        s.messages.rows;
  checkins =
      count-delete_zero (λ (r : Checkin). r.user_id == id) (λ r. r.user_id == id) (λ r h. h)
        s.checkins.rows;
  suggestions =
      count-delete_zero (λ (r : SuggestionRow). r.user_id == id) (λ r. r.user_id == id) (λ r h. h)
        s.suggestions.rows;
  deliveries =
      count-delete_zero (λ (r : WebhookEvent). r.user_id == id) (λ r. r.user_id == id) (λ r h. h)
        s.webhook_events.rows;
  calls =
      twice_deleted (λ (r : Transcript). r.user_id == id) (is_unowned_of id s.users) _
        (count-delete_zero (λ (r : Transcript). r.user_id == id) (λ r. r.user_id == id) (λ r h. h)
          s.transcripts.rows);
  unowned_calls =
      count-delete_zero (is_unowned_of id s.users) (is_unowned_of id s.users) (λ r h. h)
        (Sql.delete_rows (λ (r : Transcript). r.user_id == id) s.transcripts.rows);
  sign_ins =
      count-delete_zero (λ (r : AuthSession). r.user_id == id) (λ r. r.user_id == id) (λ r h. h)
        s.auth_sessions.rows;
  codes =
      count-delete_zero (λ (r : LoginCode). is_phone_of id s.users r.phone)
        (λ r. is_phone_of id s.users r.phone) (λ r h. h) s.login_codes.rows;
  audit =
      deleted_by_both (λ (r : AuthAudit). r.user_id == id) (λ r. is_phone_of id s.users r.phone)
        s.auth_audit.rows;
}

-- A row that has neither the id nor the number of the profile.
abbrev pub is_apart {ℓ} : {A : Type ℓ} → ℕ → Table User → (A → ℕ) → (A → String) → A → Bool
is_apart id users user_of phone_of r =
    not (user_of r == id) && not (is_phone_of id users (phone_of r))

-- What the store holds under the id of another person is left exactly as it was when `id` is forgotten, and so
-- are the calls, the login codes and the audit rows that are under neither the id nor the number of `id`.
pub record IsUntouched (id other : ℕ) (before after : Store) : Type 0 where
  pub profile :
      Sql.select (λ (r : User). r.id == other) after.users.rows
      ≡ Sql.select (λ (r : User). r.id == other) before.users.rows
  pub signals :
      Sql.select (λ (r : Signal). r.user_id == other) after.signals.rows
      ≡ Sql.select (λ (r : Signal). r.user_id == other) before.signals.rows
  pub consents :
      Sql.select (λ (r : Consent). r.user_id == other) after.consents.rows
      ≡ Sql.select (λ (r : Consent). r.user_id == other) before.consents.rows
  pub items :
      Sql.select (λ (r : ChecklistItem). r.user_id == other) after.checklist_items.rows
      ≡ Sql.select (λ (r : ChecklistItem). r.user_id == other) before.checklist_items.rows
  pub sessions :
      Sql.select (λ (r : Session). r.user_id == other) after.sessions.rows
      ≡ Sql.select (λ (r : Session). r.user_id == other) before.sessions.rows
  pub calls :
      Sql.select (λ (r : Transcript). r.user_id == other) after.transcripts.rows
      ≡ Sql.select (λ (r : Transcript). r.user_id == other) before.transcripts.rows
  pub sign_ins :
      Sql.select (λ (r : AuthSession). r.user_id == other) after.auth_sessions.rows
      ≡ Sql.select (λ (r : AuthSession). r.user_id == other) before.auth_sessions.rows
  pub messages :
      Sql.select (λ (r : MessageRow). r.user_id == other) after.messages.rows
      ≡ Sql.select (λ (r : MessageRow). r.user_id == other) before.messages.rows
  pub checkins :
      Sql.select (λ (r : Checkin). r.user_id == other) after.checkins.rows
      ≡ Sql.select (λ (r : Checkin). r.user_id == other) before.checkins.rows
  pub suggestions :
      Sql.select (λ (r : SuggestionRow). r.user_id == other) after.suggestions.rows
      ≡ Sql.select (λ (r : SuggestionRow). r.user_id == other) before.suggestions.rows
  pub deliveries :
      Sql.select (λ (r : WebhookEvent). r.user_id == other) after.webhook_events.rows
      ≡ Sql.select (λ (r : WebhookEvent). r.user_id == other) before.webhook_events.rows
  pub codes :
      Sql.select
        (λ (r : LoginCode). not (is_phone_of id before.users r.phone))
        after.login_codes.rows
      ≡ Sql.select
          (λ (r : LoginCode). not (is_phone_of id before.users r.phone))
          before.login_codes.rows
  pub other_calls :
      Sql.select
        (is_apart id before.users (λ (r : Transcript). r.user_id) (λ r. r.phone))
        after.transcripts.rows
      ≡ Sql.select
          (is_apart id before.users (λ (r : Transcript). r.user_id) (λ r. r.phone))
          before.transcripts.rows
  pub audit :
      Sql.select
        (is_apart id before.users (λ (r : AuthAudit). r.user_id) (λ r. r.phone))
        after.auth_audit.rows
      ≡ Sql.select
          (is_apart id before.users (λ (r : AuthAudit). r.user_id) (λ r. r.phone))
          before.auth_audit.rows

not_both : (id other k : ℕ) → id ≢ other → (k == other) ≡ true → (k == id) ≡ false
not_both id other k ne h = ground arith

false_of_not : (b : Bool) → not b ≡ true → b ≡ false
false_of_not b h = ground arith

no_id : (own numbered : Bool) → (not own && not numbered) ≡ true → own ≡ false
no_id own numbered h = ground arith

no_number :
    (own unowned numbered : Bool) → (not own && not numbered) ≡ true → (unowned && numbered) ≡ false
no_number own unowned numbered h = ground arith

-- Forgetting one person leaves the profile, observations, consents, answers, conversations, messages,
-- check-ins, suggestions, deliveries, calls and sign-in sessions under the id of every other as they were,
-- and so the login codes under another number, and the calls and audit rows that have neither the id nor
-- the number of the person forgotten.
pub forget_user-IsUntouched :
    (id other : ℕ) (s : Store) → id ≢ other → other ≢ 0 → IsUntouched id other s (forget_user id s)
unfolding forget_user Sql.delete
forget_user-IsUntouched id other s ne owned = record {
  profile =
      select-delete_same (λ (r : User). r.id == other) (λ r. r.id == id)
        (λ r. not_both id other r.id ne) s.users.rows;
  signals =
      select-delete_same (λ (r : Signal). r.user_id == other) (λ r. r.user_id == id)
        (λ r. not_both id other r.user_id ne) s.signals.rows;
  consents =
      select-delete_same (λ (r : Consent). r.user_id == other) (λ r. r.user_id == id)
        (λ r. not_both id other r.user_id ne) s.consents.rows;
  items =
      select-delete_same (λ (r : ChecklistItem). r.user_id == other) (λ r. r.user_id == id)
        (λ r. not_both id other r.user_id ne) s.checklist_items.rows;
  sessions =
      select-delete_same (λ (r : Session). r.user_id == other) (λ r. r.user_id == id)
        (λ r. not_both id other r.user_id ne) s.sessions.rows;
  calls =
      select-delete_same (λ (r : Transcript). r.user_id == other) (is_unowned_of id s.users)
        (λ r h. rw (not_both 0 other r.user_id (λ e. owned (sym e)) h)) _
      ∙ select-delete_same (λ (r : Transcript). r.user_id == other) (λ r. r.user_id == id)
          (λ r. not_both id other r.user_id ne) s.transcripts.rows;
  sign_ins =
      select-delete_same (λ (r : AuthSession). r.user_id == other) (λ r. r.user_id == id)
        (λ r. not_both id other r.user_id ne) s.auth_sessions.rows;
  messages =
      select-delete_same (λ (r : MessageRow). r.user_id == other) (λ r. r.user_id == id)
        (λ r. not_both id other r.user_id ne) s.messages.rows;
  checkins =
      select-delete_same (λ (r : Checkin). r.user_id == other) (λ r. r.user_id == id)
        (λ r. not_both id other r.user_id ne) s.checkins.rows;
  suggestions =
      select-delete_same (λ (r : SuggestionRow). r.user_id == other) (λ r. r.user_id == id)
        (λ r. not_both id other r.user_id ne) s.suggestions.rows;
  deliveries =
      select-delete_same (λ (r : WebhookEvent). r.user_id == other) (λ r. r.user_id == id)
        (λ r. not_both id other r.user_id ne) s.webhook_events.rows;
  codes =
      select-delete_same (λ (r : LoginCode). not (is_phone_of id s.users r.phone))
        (λ r. is_phone_of id s.users r.phone) (λ r. false_of_not (is_phone_of id s.users r.phone))
        s.login_codes.rows;
  other_calls =
      select-delete_same (is_apart id s.users (λ (r : Transcript). r.user_id) (λ r. r.phone))
        (is_unowned_of id s.users)
        (λ r. no_number (r.user_id == id) (r.user_id == 0) (is_phone_of id s.users r.phone)) _
      ∙ select-delete_same (is_apart id s.users (λ (r : Transcript). r.user_id) (λ r. r.phone))
          (λ r. r.user_id == id) (λ r. no_id (r.user_id == id) (is_phone_of id s.users r.phone))
          s.transcripts.rows;
  audit =
      select-delete_same (is_apart id s.users (λ (r : AuthAudit). r.user_id) (λ r. r.phone))
        (λ r. is_phone_of id s.users r.phone)
        (λ r. no_number (r.user_id == id) true (is_phone_of id s.users r.phone)) _
      ∙ select-delete_same (is_apart id s.users (λ (r : AuthAudit). r.user_id) (λ r. r.phone))
          (λ r. r.user_id == id) (λ r. no_id (r.user_id == id) (is_phone_of id s.users r.phone))
          s.auth_audit.rows;
}
