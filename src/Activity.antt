-- ===== src/Activity.antt =====
-- db.go: check-ins, messages, events and suggestions. Rows stand in the order of their ids, so that
-- ORDER BY id DESC reads a table from its end. A limit is a number from 0 up.
use mathlib.Core.List.{reverse}
use running_hackathon.Prelude.{
  ℕ, String, Bool, not, ◌&&◌, none, some, List, [], ◌∷◌, take, leb, ltb, ◌==◌, str_eq, length,
  if◌then◌else◌, map,
}
use running_hackathon.Clock.{Time}
use running_hackathon.Outcome.{Result, ok, err, message, no_rows}
use running_hackathon.Sql
use running_hackathon.Sql.{Table}
use running_hackathon.Db.{User, Checkin, Event, SuggestionRow, MessageRow, Store}

-- AllUsers: ORDER BY id
abbrev pub all_users : Store → List User
all_users s = s.users.rows

-- The check-in gets the id of its row, and the time that the table sets.
unfoldable pub add_checkin : Checkin → Time → Store → Result Checkin × Store
add_checkin c now s = if c.user_id == 0 then (err (message "check-in needs a user"), s) else (
  ok (record c { id = s.checkins.next_id }),
  record s { checkins = Sql.insert (λ id. record c { id = id; created_at = now }) s.checkins },
)

unfoldable pub recent_checkins : ℕ → ℕ → Store → List Checkin
recent_checkins user_id limit s =
    take limit (reverse (Sql.select (λ (c : Checkin). c.user_id == user_id) s.checkins.rows))

unfoldable pub add_message : ℕ → String → String → Store → Store
add_message user_id role body s = record s {
  messages =
      Sql.insert (λ id. record { id = id; user_id = user_id; role = role; body = body }) s.messages;
}

-- The role and the body: the last `limit` messages, in the order in which they were written.
abbrev pub spoken : MessageRow → String × String
spoken m = (m.role, m.body)

unfoldable pub recent_messages : ℕ → ℕ → Store → List (String × String)
recent_messages user_id limit s = map spoken (
    reverse (
      take limit (reverse (Sql.select (λ (m : MessageRow). m.user_id == user_id) s.messages.rows))))

abbrev pub is_offer_of : ℕ → ℕ → SuggestionRow → Bool
is_offer_of user_id event_id r = (r.user_id == user_id) && (r.event_id == event_id)

-- WHERE starts_at >= ? AND id NOT IN (SELECT event_id FROM suggestions WHERE user_id=?)
unfoldable pub is_candidate : ℕ → Time → Store → Event → Bool
is_candidate user_id now s e =
    leb now e.starts_at && (Sql.count (is_offer_of user_id e.id) s.suggestions.rows == 0)

abbrev pub sooner : Event → Event → Bool
sooner a b = ltb a.starts_at b.starts_at

-- ORDER BY starts_at ASC; events that start together come with the last row first, where SQL names no order
unfoldable pub candidate_events : ℕ → ℕ → Time → Store → List Event
candidate_events user_id limit now s =
    take limit (Sql.order_by sooner (Sql.select (is_candidate user_id now s) s.events.rows))

abbrev pub status_offered : String
status_offered = "offered"

abbrev pub status_accepted : String
status_accepted = "accepted"

abbrev pub offered : ℕ → ℕ → Time → ℕ → SuggestionRow
offered user_id event_id now id = record {
  id = id;
  user_id = user_id;
  event_id = event_id;
  status = status_offered;
  created_at = now;
}

unfoldable pub add_suggestion : ℕ → ℕ → Time → Store → ℕ × Store
add_suggestion user_id event_id now s = (
  s.suggestions.next_id,
  record s { suggestions = Sql.insert (offered user_id event_id now) s.suggestions },
)

-- A suggestion with its event.
pub record Suggestion : Type 0 where
  pub row : SuggestionRow
  pub event : Event

-- JOIN events e ON e.id = s.event_id
unfoldable pub joined : Store → List SuggestionRow → List Suggestion
joined s [] = []
joined s (r ∷ rs) =
    let rest = joined s rs in
    elim (Sql.first (λ (e : Event). e.id == r.event_id) s.events.rows) [
      | none ↦ rest
      | some e ↦ record { row = r; event = e } ∷ rest
    ]

abbrev pub is_suggestion : ℕ → String → Suggestion → Bool
is_suggestion user_id status g = (g.row.user_id == user_id) && str_eq g.row.status status

-- ORDER BY s.id DESC
abbrev pub newer_suggestion : Suggestion → Suggestion → Bool
newer_suggestion a b = leb b.row.id a.row.id

unfoldable pub open_suggestion : ℕ → Store → Result Suggestion
open_suggestion user_id s =
    elim (Sql.top newer_suggestion (is_suggestion user_id status_offered)
      (joined s s.suggestions.rows)) [ none ↦ err no_rows | some g ↦ ok g ]

abbrev pub is_own_suggestion : ℕ → ℕ → SuggestionRow → Bool
is_own_suggestion user_id id r = (r.id == id) && (r.user_id == user_id)

unfoldable pub set_suggestion_status : ℕ → ℕ → String → Store → Result (Unit {0}) × Store
set_suggestion_status user_id id status s = (
  (if Sql.count (is_own_suggestion user_id id) s.suggestions.rows == 0 then err no_rows else ok tt),
  record s {
    suggestions =
        Sql.update (is_own_suggestion user_id id) (λ r. record r { status = status }) s.suggestions;
  },
)

-- ORDER BY e.starts_at ASC
unfoldable pub accepted_suggestions : ℕ → Store → List Suggestion
accepted_suggestions user_id s =
    Sql.order_by (λ (a b : Suggestion). sooner a.event b.event)
      (Sql.select (is_suggestion user_id status_accepted) (joined s s.suggestions.rows))

abbrev pub count_events : Store → ℕ
count_events s = length s.events.rows

-- The unique index on the title and the start.
abbrev pub same_event : Event → Event → Bool
same_event e r = str_eq r.title e.title && (r.starts_at == e.starts_at)

unfoldable pub insert_events : List Event → Table Event → Table Event
insert_events [] events = events
insert_events (e ∷ records) events =
    insert_events records (Sql.insert_ignore (same_event e) (λ id. record e { id = id }) events)

abbrev pub is_unoffered : Store → Event → Bool
is_unoffered s e = Sql.count (λ (r : SuggestionRow). r.event_id == e.id) s.suggestions.rows == 0

-- `records` is what the source gave.
unfoldable pub seed_events : List Event → Bool → Store → Store
unfolding insert_events
seed_events records force s =
    if (count_events s == length records) && not force then s else record s {
      events =
          insert_events records (if force then Sql.delete (is_unoffered s) s.events else s.events);
    }
