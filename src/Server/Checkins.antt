-- ===== src/Server/Checkins.antt =====
-- server.go, account.go, scheduler.go: opening a check-in over a text or a call, on demand and on schedule.
pub mod Slot
pub mod Spared
pub mod Schedule
use running_hackathon.Prelude.{
  ℕ, ◌+◌, ◌-◌, ◌/◌, String, Bool, true, false, not, ◌&&◌, Option, none, some, List, [], ◌∷◌, ◌++◌,
  ◌==◌, str_eq, if◌then◌else◌,
}
use running_hackathon.Clock.{Time, second}
use running_hackathon.Outcome.{Result, ok, err}
use running_hackathon.Str.{◌+s◌}
use running_hackathon.Json.{Json, flag, num, text, object}
use running_hackathon.Outside.{CalendarEvent, Outside}
use running_hackathon.Db.{User, Session, ChecklistItem, Store}
use running_hackathon.Auth.Sessions.{user_by_id}
use running_hackathon.Checklist.Template.{onboarded, flow_for, status_answered}
use running_hackathon.Checklist.Sessions.{ensure_session, settled_status}
use running_hackathon.Checklist.Answers.{checklist}
use running_hackathon.Scheduler.{Calendar, due_now}
use running_hackathon.Users.{set_call_sid, mark_triggered}
use running_hackathon.Users.Calls.{call_max_duration, call_in_progress, start_call, end_call}
use running_hackathon.VoiceContext.{CallerContext, build_caller_context, dynamic_variables}
use running_hackathon.Activity.{add_message, all_users}
use running_hackathon.Brain.Turns.{onboarding_turn}
use running_hackathon.Brain.Model.{show_when, calendar_for}
use running_hackathon.Server.State.{ServerState, send_sms}

-- The error of opening a check-in: nil, errCallInProgress, or the provider's.
pub data Opening : Type 0 where
  opened call_in_place unreachable : Opening

items_of : Result Session × Store → User → List ChecklistItem × Store
items_of (err e, s) u = ([], s)
items_of (ok sess, s) u = (checklist u.id sess.id s, s)

-- callerContext opens the session of the call where there is none.
unfoldable pub caller_context : User → Time → Store → CallerContext × Store
unfolding items_of
caller_context u now s =
    let (items, s') = items_of (ensure_session (some u) "call" (flow_for (some u)) now s) u in
    (build_caller_context u.phone (some u) items, s')

abbrev pub with_store : ServerState → Store → ServerState
with_store st s = record st { store = s }

-- Whether somebody said no to check-ins.
abbrev pub opted_out : ℕ → Store → Bool
opted_out user_id s = elim (settled_status user_id "checkin_consent" s) [
  | none ↦ false
  | some settled ↦ not (str_eq settled.0 status_answered)
]

module _ (outside : Outside) where
  -- The slot is given back where the provider does not ring; else the SID is kept.
  answered : Option String → User → ServerState → Opening × ServerState
  answered none u st = (unreachable, with_store st (end_call u.id st.store))
  answered (some sid) u st =
      (opened, record st { store = set_call_sid u.id sid st.store; rung = st.rung ++ u.phone ∷ [] })

  ring_up : CallerContext × Store → User → ServerState → Opening × ServerState
  unfolding answered
  ring_up (context, s) u st =
      answered (outside.ring u.phone u.name (onboarded u) (dynamic_variables context)) u
        (with_store st s)

  claimed : Bool × Store → User → Time → ServerState → Opening × ServerState
  unfolding ring_up
  claimed (false, s) u now st = (call_in_place, with_store st s)
  claimed (true, s) u now st = ring_up (caller_context u now s) u (with_store st s)

  unfoldable pub place_call : User → Time → ServerState → Opening × ServerState
  unfolding claimed
  place_call u now st = claimed (start_call u.id now st.store) u now st

  texted : Bool × ServerState → User → String → Opening × ServerState
  texted (false, st) u body = (unreachable, st)
  texted (true, st) u body = (opened, with_store st (add_message u.id "assistant" body st.store))

  -- With the profile in memory after the turn.
  unfoldable pub start_sms_onboarding : User → Time → ServerState → (Opening × ServerState) × User
  unfolding texted
  start_sms_onboarding u now st =
      let (body, u', s) = onboarding_turn (show_when outside) u "sms" "" now st.store in
      (texted (send_sms outside u'.phone body (with_store st s)) u' body, u')

  unfoldable pub opening_message : String → User → String
  opening_message gcal u =
      let greeting = (if str_eq u.name "" then "Hey" else "Hey " +s u.name) in
      elim (calendar_for outside gcal u) [
        | [] ↦ greeting +s " - how's your day going? Anything worth writing down?"
        | e ∷ es ↦
            greeting +s " - how's your day going? I see you had " +s e.summary +s " at " +s e.when
            +s ", how did that go?"
      ]

  unfoldable pub checkin_on : String → User → String → Time → ServerState → Opening × ServerState
  unfolding texted
  checkin_on gcal u channel now st =
      if str_eq channel "call"
      then place_call u now st
      else if not (onboarded u)
      then (start_sms_onboarding u now st).0
      else texted (send_sms outside u.phone (opening_message gcal u) st) u (opening_message gcal u)

  -- TriggerCheckin: the profile is marked whatever comes of it.
  unfoldable pub trigger_checkin : String → User → Time → ServerState → Opening × ServerState
  trigger_checkin gcal u now st =
      let (came, st') = checkin_on gcal u u.channel now st in
      (came, with_store st' (mark_triggered u.id now st'.store))

  unfoldable pub tick_user : Calendar → String → User → Time → ServerState → ServerState
  tick_user calendar gcal u now st =
      if not (due_now calendar u now)
      then st
      else if opted_out u.id st.store
      then st
      else (trigger_checkin gcal u now st).1

  unfoldable pub tick_users : Calendar → String → List User → Time → ServerState → ServerState
  tick_users calendar gcal [] now st = st
  tick_users calendar gcal (u ∷ us) now st =
      tick_users calendar gcal us now (tick_user calendar gcal u now st)

  unfoldable pub tick : Calendar → String → Time → ServerState → ServerState
  tick calendar gcal now st = tick_users calendar gcal (all_users st.store) now st

  state_of : User → Time → Json
  state_of u now = elim u.call_started_at [
    | none ↦ object (("in_progress", flag false) ∷ [])
    | some started ↦
        if call_in_progress now u
        then object (
            ("in_progress", flag true)
            ∷ ("started_at", text (outside.format_utc started))
            ∷ ("expires_in_seconds", num ((started + call_max_duration - now) / second))
            ∷ [])
        else object (("in_progress", flag false) ∷ [])
  ]

  unfoldable pub call_state : User → Time → Store → Json
  unfolding state_of
  call_state u now s = elim (user_by_id u.id s) [
    | none ↦ state_of u now
    | some fresh ↦ state_of fresh now
  ]

-- endCall: the hang-up is put off.
unfoldable pub put_off_hangup : User → ServerState → ServerState
put_off_hangup u st =
    if str_eq u.last_call_sid ""
    then st
    else record st { hangups = st.hangups ++ (u.id, u.last_call_sid) ∷ [] }

abbrev pub hung_up : ℕ → Store → Store
hung_up user_id s = end_call user_id (set_call_sid user_id "" s)

-- The next hang-up comes due; whether the provider takes it changes nothing.
unfoldable pub run_hangup : ServerState → ServerState
run_hangup st = elim st.hangups [
  | [] ↦ st
  | call ∷ calls ↦ record st { store = hung_up call.0 st.store; hangups = calls }
]
