-- ===== src/Server/Pages.antt =====
-- auth_http.go, server.go: what is shown: the pages, and the calls of the person who is signed in.
use running_hackathon.Prelude.{
  ℕ, ◌+◌, ◌-◌, ◌*◌, ◌/◌, zero, suc, String, Bool, true, false, not, Option, none, some, List, [],
  ◌∷◌, ◌++◌, map, ltb, str_eq, if◌then◌else◌,
}
use running_hackathon.Clock.{Time, second, day}
use running_hackathon.Str.{◌+s◌}
use running_hackathon.Decimal.{decimal}
use running_hackathon.Json.{
  Json, flag, num, text, arr, items, object, Response, write_json, http_error, redirect_to, render,
}
use running_hackathon.Outside.{Outside}
use running_hackathon.Phone.{normalise_phone, mask_phone}
use running_hackathon.Db.{User, Checkin, Transcript, Store}
use running_hackathon.Interests.{interest_list}
use running_hackathon.Checklist.Template.{display_name, onboarded}
use running_hackathon.Transcripts.{transcripts, transcript, delete_transcript, transcript_retention}
use running_hackathon.Users.{user_by_phone}
use running_hackathon.Activity.{Suggestion, recent_checkins, accepted_suggestions}
use running_hackathon.Server.State.{ServerState, login_code_cooldown, current_user, step_for}
use running_hackathon.Server.SignIn.{audit, json_error, method_not_allowed}
use running_hackathon.Server.Webhooks.{stamp}

unfoldable pub handle_me : User → Response
handle_me u = write_json 200 (
    ("name", text (display_name u))
    ∷ ("phone_masked", text (mask_phone u.phone))
    ∷ ("onboarded", flag (onboarded u))
    ∷ ("interests", arr (items (map text (interest_list u))))
    ∷ [])

abbrev pub transcript_page_size : ℕ
transcript_page_size = 20

abbrev pub retain_days : ℕ
retain_days = transcript_retention / day

abbrev pub long_date : String
long_date = "Mon 2 Jan 2006, 15:04"

abbrev pub no_call : Response
no_call = json_error 404 "No such call."

-- What is shown of a call in a list, and on its own with what was said.
call_fields : Outside → Transcript → List (String × Json) → List (String × Json)
call_fields outside t rest =
    ("id", num t.id)
    ∷ ("started_at", text (outside.format stamp t.started_at))
    ∷ ("when", text (outside.format long_date t.started_at))
    ∷ ("direction", text t.direction)
    ∷ ("status", text t.status)
    ∷ ("summary", text t.summary)
    ∷ (rest ++ ("turns", num t.turns) ∷ ("seconds", num (t.duration / second)) ∷ [])

abbrev pub page_of : ℕ → ℕ
page_of asked = if ltb asked 1 then 1 else asked

-- `asked` is the page that the query names, 0 where it names none. `like` is LIKE of the database.
unfoldable pub handle_transcript_list :
    Outside → (String → String → Bool) → String → ℕ → User → Store → Response
unfolding call_fields
handle_transcript_list outside like q asked u s =
    let page = page_of asked in
    let (calls, total) =
      transcripts like u.id q transcript_page_size ((page - 1) * transcript_page_size) s in
    write_json 200 (
      ("transcripts", arr (items (map (λ t. object (call_fields outside t [])) calls)))
      ∷ ("total", num total)
      ∷ ("page", num page)
      ∷ ("page_size", num transcript_page_size)
      ∷ ("pages", num ((total + transcript_page_size - 1) / transcript_page_size))
      ∷ ("query", text q)
      ∷ ("retain_days", num retain_days)
      ∷ [])

pub data Method : Type 0 where
  get delete other_method : Method

show_call : Outside → Option Transcript → Response
unfolding call_fields
show_call outside none = no_call
show_call outside (some t) = write_json 200 (call_fields outside t (("body", text t.body) ∷ []))

call_deleted : Bool × Store → ℕ → Time → User → ServerState → Response × ServerState
call_deleted (false, s) id now u st = (no_call, record st { store = s })
call_deleted (true, s) id now u st = (
  write_json 200 (("deleted", flag true) ∷ []),
  audit u.phone u.id "transcript_deleted" (decimal id) now (record st { store = s }),
)

-- `id` is what the path parses to, if it does; an id is not negative.
unfoldable pub handle_transcript_item :
    Outside → Method → Option ℕ → Time → User → ServerState → Response × ServerState
unfolding show_call call_deleted
handle_transcript_item outside method none now u st = (no_call, st)
handle_transcript_item outside get (some id) now u st =
    (show_call outside (transcript u.id id st.store), st)
handle_transcript_item outside delete (some id) now u st =
    call_deleted (delete_transcript u.id id st.store) id now u st
handle_transcript_item outside other_method (some id) now u st = (method_not_allowed, st)

login_page : Option User × ServerState → Bool → Response × ServerState
login_page (some u, st) expired = (redirect_to "/dashboard", st)
login_page (none, st) expired = (
  render 200 "login.html"
      (("Expired", flag expired) ∷ ("ResendIn", num (login_code_cooldown / second)) ∷ []),
  st,
)

dashboard_page : Option User × ServerState → Response × ServerState
dashboard_page (none, st) = (redirect_to "/login", st)
dashboard_page (some u, st) = (
  render 200 "dashboard.html" (
      ("Name", text (display_name u))
      ∷ ("PhoneMasked", text (mask_phone u.phone))
      ∷ ("Channel", text u.channel)
      ∷ ("Onboarded", flag (onboarded u))
      ∷ ("RetainDays", num retain_days)
      ∷ ("Protected", flag true)
      ∷ []),
  st,
)

person_fields : Option User → List (String × Json)
person_fields none = []
person_fields (some u) =
    ("Name", text (display_name u))
    ∷ ("PhoneMasked", text (mask_phone u.phone))
    ∷ ("Channel", text u.channel)
    ∷ ("Onboarded", flag (onboarded u))
    ∷ []

index_page : Option User × ServerState → Response × ServerState
unfolding person_fields
index_page (u, st) =
    if str_eq (step_for u) "done"
    then (redirect_to "/dashboard", st)
    else (render 200 "index.html" (("Step", text (step_for u)) ∷ person_fields u), st)

module _ (hash_secret : String → String) where
  -- `expired` says that the query names an expiry.
  unfoldable pub handle_login_page :
      Option String → Bool → Time → ServerState → Response × ServerState
  unfolding login_page
  handle_login_page cookie expired now st =
      login_page (current_user hash_secret cookie now st) expired

  unfoldable pub handle_dashboard : Option String → Time → ServerState → Response × ServerState
  unfolding dashboard_page
  handle_dashboard cookie now st = dashboard_page (current_user hash_secret cookie now st)

  unfoldable pub handle_index : String → Option String → Time → ServerState → Response × ServerState
  unfolding index_page
  handle_index path cookie now st =
      if not (str_eq path "/")
      then (http_error 404 "404 page not found", st)
      else index_page (current_user hash_secret cookie now st)

-- strings.Repeat("*", n)
stars : ℕ → String
stars zero = ""
stars (suc n) = "*" +s stars n

journal_row : Outside → Checkin → Json
unfolding stars
journal_row outside c = object (
    ("When", text (outside.format long_date c.created_at))
    ∷ ("Mood", text (elim c.mood [ none ↦ "-" | some m ↦ stars m ]))
    ∷ ("Summary", text c.summary)
    ∷ ("Topics", text c.topics)
    ∷ [])

journal_event : Outside → Suggestion → Json
journal_event outside g = object (
    ("Title", text g.event.title)
    ∷ ("When", text (outside.format long_date g.event.starts_at))
    ∷ ("URL", text g.event.url)
    ∷ [])

-- Of the profile that the template is given, the fields that it reads.
shown_profile : User → Json
shown_profile u = object (
    ("Name", text u.name)
    ∷ ("Phone", text u.phone)
    ∷ ("Channel", text u.channel)
    ∷ ("Interests", text u.interests)
    ∷ ("Frequency", text u.frequency)
    ∷ [])

unfoldable pub handle_journal : Outside → String → Store → Response
unfolding shown_profile journal_row journal_event
handle_journal outside field s =
    if str_eq (normalise_phone field) ""
    then render 400 "journal.html" (("Error", text "Pass ?phone=+44...") ∷ [])
    else elim (user_by_phone (normalise_phone field) s) [
      | none ↦
          render 404 "journal.html"
            (("Error", text ("No journal yet for " +s normalise_phone field)) ∷ [])
      | some u ↦ render 200 "journal.html" (
          ("User", shown_profile u)
          ∷ ("Checkins", arr (items (map (journal_row outside) (recent_checkins u.id 200 s))))
          ∷ ("Events", arr (items (map (journal_event outside) (accepted_suggestions u.id s))))
          ∷ [])
    ]
