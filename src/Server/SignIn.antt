-- ===== src/Server/SignIn.antt =====
-- auth_http.go: asking for a code and signing up; the child Verify has what follows the code. The code and
-- the token that are drawn come in as arguments.
pub mod Verify
pub mod Oracle
pub mod Proof
pub mod Entry
pub mod Countdown
use running_hackathon.Prelude.{
  ℕ, ◌+◌, ◌/◌, String, Bool, true, not, Option, none, some, [], ◌∷◌, ltb, str_eq, if◌then◌else◌,
}
use running_hackathon.Clock.{Time, Duration, second}
use running_hackathon.Outcome.{Result, ok, err, rate_limited}
use running_hackathon.Str.{◌+s◌}
use running_hackathon.Json.{flag, num, text, Response, write_json, http_error}
use running_hackathon.Outside.{Outside}
use running_hackathon.Phone.{normalise_phone, is_e164, mask_phone}
use running_hackathon.Db.{User, Store}
use running_hackathon.Auth.Codes.{
  login_code_ttl, login_code_window, issue_login_code, discard_login_code,
}
use running_hackathon.Auth.Sessions.{record_auth_event}
use running_hackathon.Checklist.Template.{display_name}
use running_hackathon.Limiter.{Throttle, pass, blocked, too_soon, too_many, throttle_code}
use running_hackathon.Users.{user_by_phone, ensure_user}
use running_hackathon.Server.State.{
  ServerState, login_code_cooldown, send_sms, current_user, step_for,
}

abbrev pub method_not_allowed : Response
method_not_allowed = http_error 405 "method not allowed"

abbrev pub json_error : ℕ → String → Response
json_error status what = write_json status (("error", text what) ∷ [])

abbrev pub audit : String → ℕ → String → String → Time → ServerState → ServerState
audit phone user_id event detail now st = record st {
  store = record_auth_event phone user_id event detail now st.store;
}

-- tooManyCodes: whole seconds, to the nearest, and one at least
abbrev pub wait_seconds : Duration → ℕ
wait_seconds wait = let secs = (wait + second / 2) / second in if ltb secs 1 then 1 else secs

abbrev pub too_many_codes : String → Duration → Response
too_many_codes msg wait =
    write_json 429 (("error", text msg) ∷ ("retry_after", num (wait_seconds wait)) ∷ [])

-- throttleCode: the answer to a client that is turned away, and the state.
told : Throttle → Option Response
told pass = none
told blocked = some (json_error 429 "Too many attempts. Try again in a few minutes.")
told (too_soon wait) =
    some (too_many_codes "You just asked for a code. Give it a moment before trying again." wait)
told (too_many wait) =
    some (too_many_codes "Too many codes requested for that number. Try again shortly." wait)

unfoldable pub throttle : String → String → Time → ServerState → Option Response × ServerState
unfolding told
throttle client phone now st =
    let (verdict, limits, s) = throttle_code client phone now st.limits st.store in
    (told verdict, record st { limits = limits; store = s })

abbrev pub generic_answer : Response
generic_answer = write_json 200 (
    ("sent", flag true)
    ∷ ("message", text "If that number is registered, a code is on its way.")
    ∷ ("resend_in", num (login_code_cooldown / second))
    ∷ ("expires_in", num (login_code_ttl / second))
    ∷ [])

abbrev pub code_text : String → String
code_text code = "Your CheckIn code is " +s code +s ". It expires in 10 minutes."

abbrev pub rate_answer : Response
rate_answer =
    too_many_codes "Too many codes requested for that number. Try again shortly." login_code_window

module _ (hash_secret : String → String) (outside : Outside) where
  -- The text with the code, and what is kept of the attempt. `undelivered` answers where the provider did
  -- not take the text; the code is thrown away then.
  deliver_code :
      String
      → String
      → User
      → String
      → Response
      → Response
      → Time
      → ServerState
      → Response × ServerState
  deliver_code code phone u detail delivered undelivered now st =
      let (taken, st') = send_sms outside phone (code_text code) st in
      if not taken
      then (
        undelivered,
        audit phone u.id "code_delivery_failed" "" now
            (record st' { store = discard_login_code phone st'.store }),
      )
      else (delivered, audit phone u.id "code_sent" detail now st')

  -- The code that was issued, or why none was; `failed` is the answer to any error but the rate.
  issue_and_deliver :
      Result String × Store
      → String
      → User
      → String
      → Response
      → Response
      → Response
      → Time
      → ServerState
      → Response × ServerState
  unfolding deliver_code
  issue_and_deliver (err rate_limited, s) phone u detail delivered undelivered failed now st =
      (rate_answer, audit phone u.id "code_rate_limited" "phone" now (record st { store = s }))
  issue_and_deliver (err e, s) phone u detail delivered undelivered failed now st =
      (failed, record st { store = s })
  issue_and_deliver (ok code, s) phone u detail delivered undelivered failed now st =
      deliver_code code phone u detail delivered undelivered now (record st { store = s })

  code_for : Option User → String → String → Time → ServerState → Response × ServerState
  unfolding issue_and_deliver
  code_for none drawn phone now st =
      (generic_answer, audit phone 0 "code_requested_unknown" "" now st)
  code_for (some u) drawn phone now st =
      issue_and_deliver (issue_login_code hash_secret drawn phone now st.store) phone u ""
        generic_answer generic_answer (json_error 500 "Could not send a code just now.") now st

  request_passed : Option Response × ServerState → String → String → Time → Response × ServerState
  unfolding code_for
  request_passed (some r, st) drawn phone now = (r, st)
  request_passed (none, st) drawn phone now =
      code_for (user_by_phone phone st.store) drawn phone now st

  -- `post` says that the method is POST; `client` is clientIP of the request.
  unfoldable pub handle_auth_request :
      Bool → String → String → String → Time → ServerState → Response × ServerState
  unfolding request_passed
  handle_auth_request post client field drawn now st =
      if not post
      then (method_not_allowed, st)
      else if not (is_e164 (normalise_phone field))
      then (json_error 400 "Use the international format, like +447700900123.", st)
      else request_passed (throttle client (normalise_phone field) now st) drawn
          (normalise_phone field) now

  abbrev signup_sent : String → Response
  signup_sent phone = write_json 200 (
      ("sent", flag true)
      ∷ ("message", text ("Code texted to " +s mask_phone phone +s "."))
      ∷ ("resend_in", num (login_code_cooldown / second))
      ∷ ("expires_in", num (login_code_ttl / second))
      ∷ [])

  claimed : Option User × Store → String → String → Time → ServerState → Response × ServerState
  unfolding issue_and_deliver
  claimed (none, s) drawn phone now st =
      (json_error 500 "Could not start sign-up just now.", record st { store = s })
  claimed (some u, s) drawn phone now st =
      issue_and_deliver (issue_login_code hash_secret drawn phone now s) phone u "signup"
        (signup_sent phone)
        (json_error 502 "We couldn't text that number just now. Check it and try again.")
        (json_error 500 "Could not send a code just now.") now (record st { store = s })

  signup_passed : Option Response × ServerState → String → String → Time → Response × ServerState
  unfolding claimed
  signup_passed (some r, st) drawn phone now = (r, st)
  signup_passed (none, st) drawn phone now =
      claimed (ensure_user phone now st.store) drawn phone now st

  -- Somebody who is signed in on this number has nothing to verify.
  signup_for : Option User × ServerState → String → String → String → Time → Response × ServerState
  unfolding signup_passed
  signup_for (none, st) client drawn phone now =
      signup_passed (throttle client phone now st) drawn phone now
  signup_for (some u, st) client drawn phone now =
      if str_eq u.phone phone
      then (
        write_json 200 (
            ("verified", flag true)
            ∷ ("step", text (step_for (some u)))
            ∷ ("name", text (display_name u))
            ∷ []),
        st,
      )
      else signup_passed (throttle client phone now st) drawn phone now

  unfoldable pub handle_signup_start :
      Bool → Option String → String → String → String → Time → ServerState → Response × ServerState
  unfolding signup_for
  handle_signup_start post cookie client field drawn now st =
      if not post
      then (method_not_allowed, st)
      else if not (is_e164 (normalise_phone field))
      then (json_error 400 "Include the country code, like +447700900123.", st)
      else signup_for (current_user hash_secret cookie now st) client drawn (normalise_phone field)
          now
