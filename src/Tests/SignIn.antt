-- ===== src/Tests/SignIn.antt =====
-- The theorems on the sign-in handlers and the dashboard, applied to concrete requests.
use running_hackathon.Prelude.{
  ◌+◌, ◌*◌, ◌/◌, ◌≤◌, String, true, false, ◌≡◌, ◌≢◌, refl, ap, none, some, [], ◌∷◌, arith, All,
  length,
}
use running_hackathon.Clock.{Time, minute, day, second}
use running_hackathon.Outcome.{ok}
use running_hackathon.Sql
use running_hackathon.Json.{Response}
use running_hackathon.Phone.{normalise_phone, is_e164}
use running_hackathon.Str.{trim_space, has_prefix, after, in_cutset}
use running_hackathon.Db.{User, ChecklistItem, fresh_store}
use running_hackathon.Auth.Codes.{issue_login_code, consume_login_code, is_outstanding, is_recent}
use running_hackathon.Auth.Sessions.{record_auth_event, start_auth_session, user_by_id}
use running_hackathon.Limiter.{IpLimiter, allow, kept, take_hit}
use running_hackathon.Server.SignIn.Countdown.{take_hit-shown}
use running_hackathon.Users.{user_by_phone}
use running_hackathon.Users.Calls.{start_call}
use running_hackathon.Server.State.{ServerState, current_user, send_sms}
use running_hackathon.Server.SignIn.{wait_seconds, handle_auth_request}
use running_hackathon.Server.SignIn.Verify.{signed_in_answer, handle_auth_verify}
use running_hackathon.Server.SignIn.Oracle.{under_rate, handle_auth_request-oracle}
use running_hackathon.Server.SignIn.Proof.{
  IsProved, handle_auth_verify-IsProved, handle_auth_verify-refused,
}
use running_hackathon.Server.SignIn.Entry.{
  IsTyped, IsFresh, proved_by_code, handle_auth_verify-issued,
}
use running_hackathon.Server.Checkins.{unreachable, place_call}
use running_hackathon.Server.Checkins.Slot.{
  rows_of, calls_placed, calls_placed-le-one, place_call-unreachable,
}
use running_hackathon.Server.Checkins.Spared.{IsSpared}
use running_hackathon.Server.Checkins.Schedule.{tick-opted_out}
use running_hackathon.Server.Checkins.{
  opted_out, tick, tick_user, tick_users, trigger_checkin, checkin_on, opening_message,
}
use running_hackathon.Server.Dashboard.{handle_forget_me}
use running_hackathon.Server.Dashboard.Erasure.{IsErased, handle_forget_me-IsErased}
use running_hackathon.Scheduler.{Calendar, due_now, slot_at}
use running_hackathon.Checklist.Sessions.{is_settled_answer, last_settled, settled_status}
use running_hackathon.Outside.{Outside}
use running_hackathon.Tests.{digest, noon, ada, ada_store, quiet, differ, server_of}

abbrev phone : String
phone = "+447700900123"

abbrev issued : ServerState
issued = server_of (issue_login_code digest "123456" phone noon ada_store).1

was_issued : (issue_login_code digest "123456" phone noon ada_store).0 ≡ ok "123456"
unfolding issue_login_code Sql.count
was_issued = refl

good_entry : IsTyped "+44 7700 900123" "123456" phone " 123456 "
unfolding normalise_phone running_hackathon.Str.has_prefix trim_space
    running_hackathon.Phone.is_e164 running_hackathon.Str.after
good_entry = record { number = refl; well_formed = refl; read_code = refl; given = refl }

new_token : IsFresh digest "token" ada_store
unfolding trim_space Sql.count
new_token = record { not_blank = refl; unused = refl }

ada_called : user_by_phone phone ada_store ≡ some ada
unfolding user_by_phone Sql.first
ada_called = refl

ada_numbered : user_by_id 1 ada_store ≡ some ada
unfolding user_by_id Sql.first
ada_numbered = refl

under_limit : (allow "10.0.0.1" (noon + minute) (server_of ada_store).limits.login_limiter).0 ≡ true
unfolding allow running_hackathon.Limiter.kept
under_limit = refl

handle_auth_verify-issued_example :
    let answer =
      handle_auth_verify digest true "10.0.0.1" "+44 7700 900123" " 123456 " "token"
        (noon + minute)
        issued in
    (answer.0 ≡ signed_in_answer digest "token" ada (noon + minute))
    × ((current_user digest (some "token") (noon + day) answer.1).0
        ≡ some (proved_by_code (noon + minute) ada))
handle_auth_verify-issued_example =
    handle_auth_verify-issued digest "10.0.0.1" "+44 7700 900123" " 123456 " "123456" phone "token"
      ada noon (noon + minute) (noon + day) (server_of ada_store) was_issued (omega arith)
      good_entry new_token ada_called ada_numbered under_limit (omega arith)

was_let_in :
    (handle_auth_verify digest true "10.0.0.1" "+44 7700 900123" " 123456 " "token"
      (noon + minute)
      issued).0.status
    ≡ 200
was_let_in =
    ap (λ (r : Response). r.status)
      (handle_auth_verify-issued digest "10.0.0.1" "+44 7700 900123" " 123456 " "123456" phone
        "token" ada noon (noon + minute) (noon + day) (server_of ada_store) was_issued (omega arith)
        good_entry new_token ada_called ada_numbered under_limit (omega arith)).0

handle_auth_verify-IsProved_example :
    IsProved digest
      (normalise_phone "+44 7700 900123")
      (trim_space " 123456 ")
      "token"
      (noon + minute)
      issued.store
      (handle_auth_verify digest true "10.0.0.1" "+44 7700 900123" " 123456 " "token"
        (noon + minute)
        issued).1.store
      (handle_auth_verify digest true "10.0.0.1" "+44 7700 900123" " 123456 " "token"
        (noon + minute)
        issued).0
handle_auth_verify-IsProved_example =
    handle_auth_verify-IsProved digest true "10.0.0.1" "+44 7700 900123" " 123456 " "token"
      (noon + minute) issued was_let_in

was_refused :
    (handle_auth_verify digest true "10.0.0.1" phone "654321" "token"
      (noon + minute)
      issued).0.status
    ≡ 401
unfolding handle_auth_verify is_e164 has_prefix normalise_phone trim_space after allow kept
    user_by_phone Sql.first issue_login_code Sql.count consume_login_code Sql.top Sql.insert
    Sql.update Sql.update_rows is_outstanding is_recent record_auth_event take_hit in_cutset
was_refused = refl

wrong_guess :
    (handle_auth_verify digest true "10.0.0.1" phone "654321" "token"
      (noon + minute)
      issued).0.status
    ≢ 200
wrong_guess e = absurd (ground (arith, was_refused, e))

handle_auth_verify-refused_example :
    (handle_auth_verify digest true "10.0.0.1" phone "654321" "token"
      (noon + minute)
      issued).1.store.auth_sessions
    ≡ issued.store.auth_sessions
handle_auth_verify-refused_example =
    handle_auth_verify-refused digest true "10.0.0.1" phone "654321" "token" (noon + minute) issued
      wrong_guess

registered-under_rate : under_rate (normalise_phone phone) noon ada_store ≡ true
unfolding Sql.count
registered-under_rate = refl

stranger-under_rate : under_rate (normalise_phone phone) noon fresh_store ≡ true
unfolding Sql.count
stranger-under_rate = refl

handle_auth_request-oracle_example :
    (handle_auth_request digest quiet true "10.0.0.1" phone "123456" noon (server_of ada_store)).0
    ≡ (handle_auth_request digest quiet true "10.0.0.1" phone "000000" noon
        (server_of fresh_store)).0
handle_auth_request-oracle_example =
    handle_auth_request-oracle digest quiet true "10.0.0.1" phone "123456" "000000" noon
      (server_of ada_store) (server_of fresh_store) refl registered-under_rate stranger-under_rate

one_row : rows_of 1 ada_store ≤ 1
unfolding Sql.count
one_row = omega arith

calls_placed-le-one_example :
    calls_placed quiet ada (noon ∷ (noon + minute) ∷ (noon + second) ∷ []) (server_of ada_store) ≤ 1
calls_placed-le-one_example =
    calls_placed-le-one quiet ada noon (noon ∷ (noon + minute) ∷ (noon + second) ∷ [])
      (server_of ada_store) one_row
      ((omega arith, omega arith), ((omega arith, omega arith), ((omega arith, omega arith), tt)))

abbrev no_line : Outside
no_line = record quiet { ring = λ number name onboarded vars. none }

exactly_one : rows_of 1 ada_store ≡ 1
unfolding Sql.count
exactly_one = refl

not_reached : (place_call no_line ada noon (server_of ada_store)).0 ≡ unreachable
unfolding place_call start_call Sql.count
not_reached = refl

place_call-unreachable_example :
    (start_call 1 (noon + second) (place_call no_line ada noon (server_of ada_store)).1.store).0
    ≡ true
place_call-unreachable_example =
    place_call-unreachable no_line ada noon (noon + second) (server_of ada_store) exactly_one
      not_reached

abbrev always_nine : Calendar
always_nine = record { hour_of = λ t. 9; is_weekend = λ t. false; hour_start = λ t h. noon }

abbrev bob : User
bob = record ada { id = 2; phone = "+447700900456"; name = "Bob" }

abbrev declined : ChecklistItem
declined = record {
  id = 1;
  user_id = 1;
  session_id = 1;
  key = "checkin_consent";
  position = 0;
  prompt = "";
  status = "declined";
  answer = "";
  source = "conversation";
  asked_at = none;
  answered_at = some noon;
}

-- Both are due, and Ada has declined.
abbrev two_due : ServerState
two_due = server_of record fresh_store {
  users = record { rows = ada ∷ bob ∷ []; next_id = 3 };
  checklist_items = record { rows = declined ∷ []; next_id = 2 };
}

ada_declined : opted_out 1 two_due.store ≡ true
unfolding settled_status last_settled Sql.top is_settled_answer
ada_declined = refl

own_numbers : All (λ (v : User). v.id ≢ 1 → v.phone ≢ phone) two_due.store.users.rows
own_numbers = (λ ne. absurd (ne refl), (λ ne. differ "+447700900456" "+447700900123" refl, tt))

tick-opted_out_example :
    IsSpared 1 phone two_due (tick quiet always_nine "" (noon + minute) two_due)
tick-opted_out_example =
    tick-opted_out quiet always_nine "" (noon + minute) 1 phone two_due ada_declined own_numbers

-- Bob is texted by the same tick.
bob_texted : length (tick quiet always_nine "" (noon + minute) two_due).sent ≡ 1
unfolding tick tick_users tick_user due_now slot_at settled_status last_settled Sql.top
    is_settled_answer trigger_checkin checkin_on send_sms opening_message
bob_texted = refl

abbrev with_session : ServerState
with_session = server_of (start_auth_session digest "token" 1 noon ada_store).1

has_session :
    current_user digest (some "token") (noon + minute) with_session
    ≡ (some ada, (current_user digest (some "token") (noon + minute) with_session).1)
unfolding current_user running_hackathon.Auth.Sessions.auth_session_user trim_space Sql.first
    start_auth_session Sql.insert running_hackathon.Auth.Sessions.is_active user_by_id
has_session = refl

handle_forget_me-IsErased_example :
    IsErased ada
      (current_user digest (some "token") (noon + minute) with_session).1.store
      (handle_forget_me digest true (some "token") "DELETE" (noon + minute) with_session)
handle_forget_me-IsErased_example =
    handle_forget_me-IsErased digest (some "token") (noon + minute) with_session
      (current_user digest (some "token") (noon + minute) with_session).1 ada has_session

-- The second request for a code, 600 milliseconds after the first: 29.4 seconds are left, and 29 are shown.
abbrev asked_once : IpLimiter
asked_once = record { hits = λ key. noon ∷ []; limit = 1; window = 30 * second }

abbrev soon : Time
soon = noon + 3 * (second / 5)

turned_away : (take_hit phone soon asked_once).0 ≡ (false, 147 * (second / 5))
unfolding take_hit kept
turned_away = refl

take_hit-shown_example :
    (allow phone
      (soon + wait_seconds (147 * (second / 5)) * second + second / 2)
      (take_hit phone soon asked_once).1).0
    ≡ true
take_hit-shown_example =
    take_hit-shown phone soon (147 * (second / 5)) asked_once (omega arith) (omega arith)
      turned_away
