-- ===== src/Server/SignIn/Verify.antt =====
-- auth_http.go: proving a code, signing out, the guard of the pages with personal data, and the name.
use running_hackathon.Prelude.{
  ◌+◌, String, Bool, true, false, not, ◌||◌, Option, none, some, [], ◌∷◌, str_eq, if◌then◌else◌,
}
use running_hackathon.Clock.{Time, unix_epoch}
use running_hackathon.Outcome.{error_text, Result, ok, err, unusable_answer}
use running_hackathon.Str.{trim_space}
use running_hackathon.Json.{flag, text, Response, write_json, redirect_to, set_session_cookie}
use running_hackathon.Phone.{normalise_phone, is_e164}
use running_hackathon.Db.{User, Store}
use running_hackathon.Auth.Codes.{consume_login_code}
use running_hackathon.Auth.Sessions.{auth_session_ttl, start_auth_session, revoke_auth_session}
use running_hackathon.Checklist.Template.{display_name, onboarded}
use running_hackathon.Limiter.{allow}
use running_hackathon.Users.{user_by_phone, set_name, mark_phone_verified}
use running_hackathon.Server.State.{ServerState, current_user, step_for}
use running_hackathon.Server.SignIn.{method_not_allowed, json_error, audit}

module _ (hash_secret : String → String) where
  abbrev pub wrong_code : Response
  wrong_code = json_error 401 "That code is not right or has expired."

  abbrev pub signed_in_answer : String → User → Time → Response
  signed_in_answer token u now = set_session_cookie token (now + auth_session_ttl) (
      write_json 200 (
        ("signed_in", flag true)
        ∷ ("name", text (display_name u))
        ∷ ("onboarded", flag (onboarded u))
        ∷ ("step", text (step_for (some u)))
        ∷ []))

  -- A session for the number that was proved.
  unfoldable pub session_for :
      Result String × Store → String → User → Time → ServerState → Response × ServerState
  session_for (err e, s) phone u now st =
      (json_error 500 "Could not sign you in just now.", record st { store = s })
  session_for (ok token, s) phone u now st = (
    signed_in_answer token u now,
    audit phone u.id "login_ok" "" now (record st { store = mark_phone_verified u.id "otp" now s }),
  )

  unfoldable pub checked :
      Result (Unit {0}) × Store
      → String
      → User
      → String
      → Time
      → ServerState
      → Response × ServerState
  unfolding session_for
  checked (err e, s) phone u drawn now st =
      (wrong_code, audit phone u.id "login_failed" (error_text e) now (record st { store = s }))
  checked (ok done, s) phone u drawn now st =
      session_for (start_auth_session hash_secret drawn u.id now s) phone u now st

  unfoldable pub verify_for :
      Option User → String → String → String → Time → ServerState → Response × ServerState
  unfolding checked
  verify_for none phone code drawn now st =
      (wrong_code, audit phone 0 "login_failed" "unknown number" now st)
  verify_for (some u) phone code drawn now st =
      checked (consume_login_code hash_secret phone code now st.store) phone u drawn now st

  unfoldable pub verify_allowed :
      Bool → String → String → String → Time → ServerState → Response × ServerState
  unfolding verify_for
  verify_allowed false phone code drawn now st =
      (json_error 429 "Too many attempts. Try again in a few minutes.", st)
  verify_allowed true phone code drawn now st =
      verify_for (user_by_phone phone st.store) phone code drawn now st

  -- `drawn` is the token of the session, if one is opened.
  unfoldable pub handle_auth_verify :
      Bool → String → String → String → String → Time → ServerState → Response × ServerState
  unfolding verify_allowed
  handle_auth_verify post client field code drawn now st =
      if not post
      then (method_not_allowed, st)
      else if not (is_e164 (normalise_phone field)) || str_eq (trim_space code) ""
      then (json_error 400 "Enter your number and the code you were sent.", st)
      else let (allowed, limiter) = allow client now st.limits.login_limiter in
        verify_allowed allowed (normalise_phone field) (trim_space code) drawn now
          (record st { limits = record st.limits { login_limiter = limiter } })

  logout_of : Option User × ServerState → String → Time → ServerState
  logout_of (none, st) token now = record st {
    store = revoke_auth_session hash_secret token now st.store;
  }
  logout_of (some u, st) token now =
      let told = audit u.phone u.id "logout" "" now st in
      record told { store = revoke_auth_session hash_secret token now told.store }

  logged_out : Option String → Time → ServerState → ServerState
  unfolding logout_of
  logged_out none now st = st
  logged_out (some token) now st =
      logout_of (current_user hash_secret (some token) now st) token now

  -- `as_json` says that the method is POST or that the client accepts JSON.
  unfoldable pub handle_auth_logout :
      Bool → Option String → Time → ServerState → Response × ServerState
  unfolding logged_out
  handle_auth_logout as_json cookie now st = (
    set_session_cookie "" unix_epoch (
        if as_json
        then write_json 200 (("signed_out", flag true) ∷ ("next", text "/") ∷ [])
        else redirect_to "/"),
    logged_out cookie now st,
  )

  guarded :
      Option User × ServerState
      → (User → ServerState → Response × ServerState)
      → Response × ServerState
  guarded (none, st) handler = (json_error 401 "sign in first", st)
  guarded (some u, st) handler = handler u st

  -- requireUser
  unfoldable pub require_user :
      (User → ServerState → Response × ServerState)
      → Option String
      → Time
      → ServerState
      → Response × ServerState
  unfolding guarded
  require_user handler cookie now st = guarded (current_user hash_secret cookie now st) handler

named : Result User × Store → ServerState → Response × ServerState
named (err unusable_answer, s) st =
    (json_error 400 "Just the name you'd like me to use.", record st { store = s })
named (err e, s) st = (json_error 500 "Could not save that just now.", record st { store = s })
named (ok u, s) st = (
  write_json 200 (
      ("ok", flag true)
      ∷ ("name", text (display_name u))
      ∷ ("step", text (step_for (some u)))
      ∷ []),
  record st { store = s },
)

unfoldable pub handle_set_name : Bool → String → Time → User → ServerState → Response × ServerState
unfolding named
handle_set_name post name now u st =
    if not post then (method_not_allowed, st) else named (set_name u name now st.store) st
