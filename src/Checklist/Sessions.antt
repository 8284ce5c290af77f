-- ===== src/Checklist/Sessions.antt =====
-- checklist.go, the sessions: EnsureSession, carryForward, lastSettled, SettledStatus, CloseSession.
-- One reading of the clock, `now`, stands for the calls of time.Now in one operation, and for the time that
-- the database sets in the rows that it writes.
pub mod Frame
pub mod Carry
pub mod Others
pub mod Open
use running_hackathon.Prelude.{
  ℕ, suc, ◌+◌, String, Bool, true, false, not, ◌&&◌, ◌||◌, Option, none, some, List, [], ◌∷◌, ltb,
  leb, ◌==◌, str_eq, if◌then◌else◌, is_some,
}
use running_hackathon.Clock.{Time}
use running_hackathon.Outcome.{Result, ok, err, message}
use running_hackathon.Sql
use running_hackathon.Sql.{Table}
use running_hackathon.Db.{User, Session, ChecklistItem, Store}
use running_hackathon.Str.{trim_space, ◌+s◌}
use running_hackathon.Checklist.Template.{
  ChecklistQuestion, status_unanswered, status_answered, status_declined, flow_onboarding,
  flow_checkin, template_for,
}

abbrev pub source_conversation : String
source_conversation = "conversation"

abbrev pub source_profile : String
source_profile = "profile"

pub record CarriedState : Type 0 where
  pub status : String
  pub answer : String
  pub source : String

abbrev pub asked_afresh : CarriedState
asked_afresh = record { status = status_unanswered; answer = ""; source = source_conversation }

-- WHERE user_id=? AND item_key=? AND (status='declined' OR (status='answered' AND answer<>''))
unfoldable pub is_settled_answer : ℕ → String → ChecklistItem → Bool
is_settled_answer user_id key c =
    (c.user_id == user_id)
    && str_eq c.key key
    && (str_eq c.status status_declined
        || (str_eq c.status status_answered && not (str_eq c.answer "")))

-- A NULL is the least time.
abbrev pub not_after : Option Time → Option Time → Bool
not_after none t = true
not_after (some a) none = false
not_after (some a) (some b) = leb a b

abbrev pub answered_later : ChecklistItem → ChecklistItem → Bool
answered_later s r = not_after r.answered_at s.answered_at

unfoldable pub last_settled : ℕ → String → Store → Option ChecklistItem
unfolding is_settled_answer
last_settled user_id key s =
    Sql.top answered_later (is_settled_answer user_id key) s.checklist_items.rows

-- at.Time of a sql.NullTime: the zero time for NULL
abbrev time_or_zero : Option Time → Time
time_or_zero none = 0
time_or_zero (some t) = t

-- The answer on the profile, if the question names a field that holds one.
unfoldable pub known_on_profile : ChecklistQuestion → User → String
known_on_profile q u = elim q.known_from [ none ↦ "" | some field ↦ trim_space (field u) ]

carry_settled : ChecklistQuestion → Option ChecklistItem → Time → CarriedState
carry_settled q none now = asked_afresh
carry_settled q (some c) now =
    if ltb 0 q.ttl && ltb (time_or_zero c.answered_at + q.ttl) now
    then asked_afresh
    else record { status = c.status; answer = c.answer; source = source_conversation }

unfoldable pub carry_forward : ChecklistQuestion → User → Time → Store → CarriedState
unfolding carry_settled known_on_profile
carry_forward q u now s =
    if q.per_session
    then asked_afresh
    else if not (str_eq (known_on_profile q u) "")
    then record { status = status_answered; answer = known_on_profile q u; source = source_profile }
    else carry_settled q (last_settled u.id q.key s) now

abbrev pub item_of : ℕ → ℕ → ℕ → ChecklistQuestion → CarriedState → Time → ℕ → ChecklistItem
item_of user_id session_id position q p now id = record {
  id = id;
  user_id = user_id;
  session_id = session_id;
  key = q.key;
  position = position;
  prompt = q.prompt;
  status = p.status;
  answer = p.answer;
  source = p.source;
  asked_at = none;
  answered_at = if not (str_eq p.status status_unanswered) then some now else none;
}

-- The loop over the template; `before` is the store that the answers are carried from.
insert_items :
    ℕ → User → Time → Store → List ChecklistQuestion → ℕ → Table ChecklistItem → Table ChecklistItem
insert_items session_id u now before [] position items = items
insert_items session_id u now before (q ∷ qs) position items =
    insert_items session_id u now before qs (suc position)
      (Sql.insert (item_of u.id session_id position q (carry_forward q u now before) now) items)

abbrev pub is_channel : String → Bool
is_channel channel = str_eq channel "call" || str_eq channel "sms" || str_eq channel "web"

abbrev pub is_flow : String → Bool
is_flow flow = str_eq flow flow_onboarding || str_eq flow flow_checkin

abbrev pub state_open : String
state_open = "open"

-- WHERE user_id=? AND channel=? AND flow=? AND state='open'
unfoldable pub is_open_session : ℕ → String → String → Session → Bool
is_open_session user_id channel flow s =
    (s.user_id == user_id)
    && str_eq s.channel channel
    && str_eq s.flow flow
    && str_eq s.state state_open

-- ORDER BY id DESC: rows stand in the order of their ids.
abbrev pub newer_session : Session → Session → Bool
newer_session s r = true

abbrev pub opened : ℕ → String → String → Time → ℕ → Session
opened user_id channel flow now id = record {
  id = id;
  user_id = user_id;
  channel = channel;
  flow = flow;
  state = state_open;
  started_at = now;
}

pub create_session : User → String → String → Time → Store → Result Session × Store
unfolding insert_items
create_session u channel flow now s = (
  ok (opened u.id channel flow now s.sessions.next_id),
  record s {
    sessions = Sql.insert (opened u.id channel flow now) s.sessions;
    checklist_items =
        insert_items s.sessions.next_id u now s (template_for flow) 0 s.checklist_items;
  },
)

resume_or_create : Option Session → User → String → String → Time → Store → Result Session × Store
unfolding create_session
resume_or_create (some sess) u channel flow now s = (ok sess, s)
resume_or_create none u channel flow now s = create_session u channel flow now s

ensure_for : User → String → String → Time → Store → Result Session × Store
unfolding resume_or_create
ensure_for u channel flow now s =
    if u.id == 0
    then (err (message "session needs a user"), s)
    else if not (is_channel channel)
    then (err (message ("unknown channel " +s channel)), s)
    else if not (is_flow flow)
    then (err (message ("unknown flow " +s flow)), s)
    else resume_or_create
        (Sql.top newer_session (is_open_session u.id channel flow) s.sessions.rows) u channel flow
        now s

-- `none` is the nil profile.
unfoldable pub ensure_session :
    Option User → String → String → Time → Store → Result Session × Store
unfolding ensure_for
ensure_session none channel flow now s = (err (message "session needs a user"), s)
ensure_session (some u) channel flow now s = ensure_for u channel flow now s

unfoldable pub close_session : ℕ → ℕ → Store → Store
close_session user_id session_id s = record s {
  sessions =
      Sql.update (λ r. (r.id == session_id) && (r.user_id == user_id))
        (λ r. record r { state = "closed" }) s.sessions;
}

-- The status and the answer of a question as it was last left.
unfoldable pub settled_status : ℕ → String → Store → Option (String × String)
settled_status user_id key s = elim (last_settled user_id key s) [
  | none ↦ none
  | some c ↦ some (c.status, c.answer)
]
