-- ===== src/Server/State.antt =====
-- The state of the server, and what the handlers share: server.go, auth_http.go.
use running_hackathon.Prelude.{
  ℕ, ◌*◌, String, Bool, true, false, Option, none, some, List, [], ◌∷◌, ◌++◌, str_eq, if◌then◌else◌,
}
use running_hackathon.Clock.{Time, Duration, second, minute}
use running_hackathon.Outcome.{Result, ok, err}
use running_hackathon.Str.{trim_space, split}
use running_hackathon.Db.{User, Store}
use running_hackathon.Auth.Codes.{login_code_rate, login_code_window}
use running_hackathon.Auth.Sessions.{auth_session_user}
use running_hackathon.Limiter.{Limits, new_ip_limiter}
use running_hackathon.Outside.{Outside}
use running_hackathon.Checklist.Template.{display_name, onboarded}

-- The store, the limiters, the texts that the provider has taken, a number and a text each, the numbers
-- that it has rung, and the calls that wait for their hang-up, a profile and a SID each.
pub record ServerState : Type 0 where
  pub store : Store
  pub limits : Limits
  pub sent : List (String × String)
  pub rung : List String
  pub hangups : List (ℕ × String)

abbrev pub login_code_cooldown : Duration
login_code_cooldown = 30 * second

-- NewServer
abbrev pub new_limits : Limits
new_limits = record {
  login_limiter = new_ip_limiter 10 (5 * minute);
  code_cooldown = new_ip_limiter 1 login_code_cooldown;
  code_budget = new_ip_limiter login_code_rate login_code_window;
}

first_part : List String → String
first_part [] = ""
first_part (p ∷ ps) = p

-- clientIP: `host` is what net.SplitHostPort makes of the remote address.
unfoldable pub client_ip : String → String → Option String → String
unfolding first_part
client_ip forwarded remote host =
    if str_eq forwarded ""
    then elim host [ none ↦ remote | some h ↦ h ]
    else trim_space (first_part (split forwarded ","))

-- Whether the provider takes the text; if so it is on its way.
unfoldable pub send_sms : Outside → String → String → ServerState → Bool × ServerState
send_sms outside phone body st =
    if outside.takes_sms phone body
    then (true, record st { sent = st.sent ++ (phone, body) ∷ [] })
    else (false, st)

unfoldable pub signed_in : Result User → Option User
signed_in (err e) = none
signed_in (ok u) = some u

module _ (hash_secret : String → String) where
  -- currentUser, from the value of the cookie if the request has it
  unfoldable pub current_user : Option String → Time → ServerState → Option User × ServerState
  unfolding signed_in
  current_user none now st = (none, st)
  current_user (some token) now st =
      let (found, s) = auth_session_user hash_secret token now st.store in
      (signed_in found, record st { store = s })

-- stepFor
unfoldable pub step_for : Option User → String
step_for none = "phone"
step_for (some u) =
    if str_eq (display_name u) "" then "name" else if onboarded u then "done" else "channel"
