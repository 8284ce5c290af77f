-- ===== src/Server/Dashboard.antt =====
-- server.go, account.go: the handlers of the sign-up form and of the dashboard. `post` says that the method is
-- POST, and the fields of the request come in by name.
pub mod Erasure
use running_hackathon.Prelude.{
  ℕ, String, Bool, true, false, not, ◌&&◌, ◌||◌, Option, none, some, List, [], ◌∷◌, str_eq,
  if◌then◌else◌,
}
use running_hackathon.Clock.{Time, unix_epoch}
use running_hackathon.Outcome.{Result, ok, err}
use running_hackathon.Str.{trim_space, ◌+s◌}
use running_hackathon.Json.{
  Json, flag, text, Response, write_json, http_error, set_session_cookie, render,
}
use running_hackathon.Outside.{Outside}
use running_hackathon.Phone.{normalise_phone, is_e164}
use running_hackathon.Db.{User, Store}
use running_hackathon.Checklist.Template.{display_name, onboarded}
use running_hackathon.Checklist.Replies.{valid_frequency}
use running_hackathon.Signals.Forget.{forget_user}
use running_hackathon.Users.{user_by_phone, ensure_user, upsert_user, mark_triggered, set_frequency}
use running_hackathon.Server.State.{ServerState, current_user}
use running_hackathon.Server.SignIn.{method_not_allowed}
use running_hackathon.Server.Checkins.{
  Opening, opened, call_in_place, unreachable, with_store, place_call, start_sms_onboarding,
  checkin_on, trigger_checkin, call_state,
}

abbrev pub refusal : ℕ → String → Response
refusal status what = write_json status (("ok", flag false) ∷ ("error", text what) ∷ [])

abbrev pub no_method : Response
no_method = refusal 405 "method not allowed"

abbrev pub is_channel : String → Bool
is_channel channel = str_eq channel "call" || str_eq channel "sms"

module _ (hash_secret : String → String) (outside : Outside) where
  call_answered : Opening × ServerState → User → Time → Response × ServerState
  call_answered (opened, st) u now = (
    write_json 200 (
        ("ok", flag true)
        ∷ ("phone", text u.phone)
        ∷ ("name", text u.name)
        ∷ ("onboarded", flag (onboarded u))
        ∷ []),
    with_store st (mark_triggered u.id now st.store),
  )
  call_answered (call_in_place, st) u now = (refusal 409 "a call is already in progress", st)
  call_answered (unreachable, st) u now = (refusal 502 "could not place the call", st)

  call_of : Option User × Store → Time → ServerState → Response × ServerState
  unfolding call_answered
  call_of (none, s) now st = (refusal 500 "user lookup failed", with_store st s)
  call_of (some u, s) now st = call_answered (place_call outside u now (with_store st s)) u now

  -- The number of the session is taken before any number of the request.
  abbrev pub number_of : Option User → String → String
  number_of none field = normalise_phone field
  number_of (some u) field = u.phone

  call_to : String → Time → ServerState → Response × ServerState
  unfolding call_of
  call_to phone now st =
      if not (is_e164 phone)
      then (refusal 400 "phone must be E.164, e.g. +447700900123", st)
      else call_of (ensure_user phone now st.store) now st

  unfoldable pub handle_call :
      Bool → Option String → String → Time → ServerState → Response × ServerState
  unfolding call_to
  handle_call post cookie field now st =
      if not post
      then (no_method, st)
      else let (session, st') = current_user hash_secret cookie now st in
        call_to (number_of session field) now st'

  checkin_answered : Opening × ServerState → User → String → Time → Response × ServerState
  checkin_answered (opened, st) u channel now =
      let marked = with_store st (mark_triggered u.id now st.store) in
      (
        write_json 200 (
            ("ok", flag true)
            ∷ ("channel", text channel)
            ∷ (
              "message",
              text (
                  if str_eq channel "call"
                  then "Pick up - I'm calling you now."
                  else "Texting you now."),
            )
            ∷ ("call", call_state outside u now marked.store)
            ∷ []),
        marked,
      )
  checkin_answered (call_in_place, st) u channel now = (
    write_json 409 (
        ("ok", flag false)
        ∷ ("channel", text channel)
        ∷ ("call", call_state outside u now st.store)
        ∷ ("error", text "A call is already in progress.")
        ∷ []),
    st,
  )
  checkin_answered (unreachable, st) u channel now = (
    write_json 502 (
        ("ok", flag false)
        ∷ ("channel", text channel)
        ∷ ("call", call_state outside u now st.store)
        ∷ ("error", text "Could not reach you just now. Try again in a minute.")
        ∷ []),
    st,
  )

  unfoldable pub handle_checkin_now :
      String → Bool → String → Time → User → ServerState → Response × ServerState
  unfolding checkin_answered
  handle_checkin_now gcal post channel now u st =
      if not post
      then (no_method, st)
      else if not (is_channel channel)
      then (refusal 400 "Pick a call or a text.", st)
      else checkin_answered (checkin_on outside gcal u channel now st) u channel now

  -- `get` says that the method is GET.
  unfoldable pub handle_call_state : Bool → Time → User → ServerState → Response × ServerState
  handle_call_state get now u st = if not get then (no_method, st) else (
    write_json 200 (("ok", flag true) ∷ ("call", call_state outside u now st.store) ∷ []),
    st,
  )

  triggered : Opening × ServerState → User → Response × ServerState
  triggered (opened, st) u = (
    write_json 200 (("ok", flag true) ∷ ("channel", text u.channel) ∷ ("phone", text u.phone) ∷ []),
    st,
  )
  triggered (call_in_place, st) u = (http_error 502 "trigger failed", st)
  triggered (unreachable, st) u = (http_error 502 "trigger failed", st)

  unfoldable pub handle_trigger : String → String → Time → ServerState → Response × ServerState
  unfolding triggered
  handle_trigger gcal field now st =
      if str_eq (normalise_phone field) ""
      then (http_error 400 "phone required", st)
      else elim (user_by_phone (normalise_phone field) st.store) [
        | none ↦ (http_error 404 "unknown user", st)
        | some u ↦ triggered (trigger_checkin outside gcal u now st) u
      ]

  -- The fields of the form, and whether the client takes JSON. `escape` is url.QueryEscape.
  signup_answer : (String → String) → Bool → String → String → User → Response
  signup_answer escape as_json phone channel u =
      if as_json
      then write_json 200 (
          ("ok", flag true)
          ∷ ("phone", text phone)
          ∷ ("name", text u.name)
          ∷ ("channel", text channel)
          ∷ ("onboarded", flag (onboarded u))
          ∷ ("journal", text ("/journal?phone=" +s escape phone))
          ∷ [])
      else render 200 "confirm.html"
          (("Phone", text phone) ∷ ("Channel", text channel) ∷ ("Frequency", text u.frequency) ∷ [])

  -- The profile with the choice, a text where none of the two is named.
  abbrev pub chosen : String → String
  chosen channel = if is_channel channel then channel else "sms"

  abbrev pub with_choice : String → String → User → User
  with_choice channel ics u = record u {
    channel = chosen channel;
    ics_url = if str_eq (trim_space ics) "" then u.ics_url else trim_space ics;
  }

  signed_up :
      (String → String)
      → Bool
      → String
      → String
      → User × Store
      → Time
      → ServerState
      → Response × ServerState
  unfolding signup_answer
  signed_up escape as_json phone channel (u, s) now st =
      if str_eq channel "sms"
      then (let ((came, st'), u') = start_sms_onboarding outside u now (with_store st s) in
          (signup_answer escape as_json phone channel u', st'))
      else (signup_answer escape as_json phone channel u, with_store st s)

  signup_by :
      Option User × ServerState
      → (String → String)
      → Bool
      → String
      → String
      → Time
      → Response × ServerState
  unfolding signed_up
  signup_by (none, st) escape as_json channel ics now = (
    write_json 401 (
        ("ok", flag false)
        ∷ ("error", text "Verify your number first.")
        ∷ ("step", text "phone")
        ∷ []),
    st,
  )
  signup_by (some u, st) escape as_json channel ics now =
      if str_eq (display_name u) ""
      then (
        write_json 409 (
            ("ok", flag false)
            ∷ ("error", text "Tell me your name first.")
            ∷ ("step", text "name")
            ∷ []),
        st,
      )
      else signed_up escape as_json u.phone (chosen channel)
          (upsert_user (with_choice channel ics u) now st.store) now st

  unfoldable pub handle_signup :
      (String → String)
      → Bool
      → Bool
      → Option String
      → String
      → String
      → Time
      → ServerState
      → Response × ServerState
  unfolding signup_by
  handle_signup escape post as_json cookie channel ics now st =
      if not post
      then (method_not_allowed, st)
      else signup_by (current_user hash_secret cookie now st) escape as_json channel ics now

settled_frequency : Option User → String → Store → Response × Store
settled_frequency none frequency s = (refusal 404 "unknown user", s)
settled_frequency (some u) frequency s = (
  write_json 200 (("ok", flag true) ∷ ("frequency", text frequency) ∷ []),
  set_frequency u.id frequency s,
)

unfoldable pub handle_settings : Bool → String → String → Store → Response × Store
unfolding settled_frequency
handle_settings post frequency field s =
    if not post
    then (no_method, s)
    else if not (valid_frequency frequency)
    then (refusal 400 "frequency must be daily, twice-daily or weekdays", s)
    else settled_frequency (user_by_phone (normalise_phone field) s) frequency s

abbrev pub erased : Response
erased =
    set_session_cookie "" unix_epoch
      (write_json 200 (("ok", flag true) ∷ ("erased", flag true) ∷ []))

forget_me_of : Option User × ServerState → Response × ServerState
forget_me_of (none, st) = (erased, st)
forget_me_of (some u, st) = (erased, with_store st (forget_user u.id st.store))

unfoldable pub handle_forget_me :
    (String → String) → Bool → Option String → String → Time → ServerState → Response × ServerState
unfolding forget_me_of
handle_forget_me hash_secret post cookie confirm now st =
    if not post
    then (no_method, st)
    else if not (str_eq confirm "DELETE")
    then (refusal 400 "Type DELETE to confirm.", st)
    else forget_me_of (current_user hash_secret cookie now st)
