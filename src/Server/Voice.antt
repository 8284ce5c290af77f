-- ===== src/Server/Voice.antt =====
-- server.go: the tools that a voice agent calls for the profile, the check-in and the suggestion. A request is
-- what the body decodes to, or `none` where it is no JSON.
use running_hackathon.Prelude.{
  ℕ, String, Bool, true, false, not, ◌||◌, Option, none, some, List, [], ◌∷◌, ◌++◌, map, str_eq,
  if◌then◌else◌,
}
use running_hackathon.Clock.{Time}
use running_hackathon.Outcome.{error_text, Result, ok, err, no_match}
use running_hackathon.Str.{join, ◌+s◌}
use running_hackathon.Json.{Json, null, flag, num, text, arr, items, object, Response, write_json}
use running_hackathon.Outside.{CalendarEvent, Outside}
use running_hackathon.Phone.{normalise_phone}
use running_hackathon.Db.{User, Checkin, Store}
use running_hackathon.Checklist.Template.{onboarded, question_by_key}
use running_hackathon.Users.{user_by_phone, ensure_user, save_onboarding}
use running_hackathon.Matching.{EventMatch, why}
use running_hackathon.Activity.{Suggestion, recent_checkins, open_suggestion}
use running_hackathon.Brain.Suggest.{no_match_line, save_checkin, suggest_event, accept_suggestion}
use running_hackathon.Brain.Model.{show_when, calendar_for}
use running_hackathon.VoiceContext.{Field, CallerContext, build_caller_context}
use running_hackathon.Server.State.{ServerState}
use running_hackathon.Server.SignIn.{json_error}
use running_hackathon.Server.Webhooks.{stamp}
use running_hackathon.Server.Checkins.{with_store, caller_context, put_off_hangup}

-- toolAuth: `got` is the header, `want` the secret of the service.
unfoldable pub tool_auth :
    String
    → (ServerState → Response × ServerState)
    → Bool
    → String
    → ServerState
    → Response × ServerState
tool_auth want next post got st =
    if not post
    then (json_error 405 "method not allowed", st)
    else if str_eq want "" || not (str_eq got want)
    then (json_error 401 "unauthorized", st)
    else next st

pub record ToolRequest : Type 0 where
  pub phone : String
  pub mood : Option ℕ
  pub summary : String
  pub topics : String
  pub name : String
  pub interests : String
  pub frequency : String

user_found : Option User × Store → (User → Store → Response × Store) → Response × Store
user_found (none, s) next = (json_error 500 "user lookup failed", s)
user_found (some u, s) next = next u s

-- toolUser, and what the handler does with the profile.
unfoldable pub tool_user :
    Option ToolRequest
    → (ToolRequest → User → Store → Response × Store)
    → Time
    → Store
    → Response × Store
unfolding user_found
tool_user none next now s = (json_error 400 "invalid json", s)
tool_user (some req) next now s =
    if str_eq (normalise_phone req.phone) ""
    then (json_error 400 "phone required", s)
    else user_found (ensure_user (normalise_phone req.phone) now s) (next req)

-- toolLookupUser makes no profile; `next` is told of none where the number is not known.
unfoldable pub tool_lookup_user :
    Option ToolRequest
    → (ToolRequest → Option User → Store → Response × Store)
    → Store
    → Response × Store
tool_lookup_user none next s = (json_error 400 "invalid json", s)
tool_lookup_user (some req) next s =
    if str_eq (normalise_phone req.phone) ""
    then (json_error 400 "phone required", s)
    else next req (user_by_phone (normalise_phone req.phone) s) s

-- The closed world as the agent reads it; a text that is empty is left out of a field.
unless_empty : String → String → List (String × Json)
unless_empty name value = if str_eq value "" then [] else (name, text value) ∷ []

field_json : String × Field → String × Json
unfolding unless_empty
field_json (key, f) = (
  key,
  object (
      ("known", flag f.is_known)
      ∷ (unless_empty "value" f.value ++ unless_empty "source" f.source)),
)

unfoldable pub context_json : CallerContext → Json
unfolding field_json
context_json c = object (
    ("phone", text c.phone)
    ∷ ("resolved", flag c.resolved)
    ∷ ("phone_verified", flag c.verified)
    ∷ ("known", object (map field_json c.known_fields))
    ∷ ("missing", arr (items (map text c.missing)))
    ∷ ("do_not_ask", arr (items (map text c.do_not_ask)))
    ∷ ("greeting", text c.greeting)
    ∷ ("instruction_to_agent", text c.instruction)
    ∷ [])

module _ (outside : Outside) where
  checkin_json : Checkin → Json
  checkin_json c = object (
      ("created_at", text (outside.format stamp c.created_at))
      ∷ ("mood", elim c.mood [ none ↦ null | some m ↦ num m ])
      ∷ ("summary", text c.summary)
      ∷ ("topics", text c.topics)
      ∷ [])

  calendar_json : CalendarEvent → Json
  calendar_json e =
      object
        (("summary", text e.summary) ∷ ("when", text e.when) ∷ ("all_day", flag e.all_day) ∷ [])

  open_json : Result Suggestion → Json
  open_json (err e) = null
  open_json (ok g) = object (
      ("title", text g.event.title)
      ∷ ("starts_at", text (outside.format stamp g.event.starts_at))
      ∷ ("url", text g.event.url)
      ∷ [])

  context_of : String → Time → ToolRequest → Option User → Store → Response × Store
  unfolding checkin_json calendar_json open_json
  context_of gcal now req none s = (
    write_json 200 (
        ("caller", context_json (build_caller_context (normalise_phone req.phone) none []))
        ∷ ("name", text "")
        ∷ ("onboarded", flag false)
        ∷ ("interests", text "")
        ∷ ("frequency", text "")
        ∷ ("last_checkins", arr (items []))
        ∷ ("todays_calendar", arr (items []))
        ∷ ("open_suggestion", null)
        ∷ []),
    s,
  )
  context_of gcal now req (some u) s =
      let (caller, s') = caller_context u now s in
      (
        write_json 200 (
            ("caller", context_json caller)
            ∷ ("name", text u.name)
            ∷ ("onboarded", flag (onboarded u))
            ∷ ("interests", text u.interests)
            ∷ ("frequency", text u.frequency)
            ∷ ("last_checkins", arr (items (map checkin_json (recent_checkins u.id 10 s'))))
            ∷ ("todays_calendar", arr (items (map calendar_json (calendar_for outside gcal u))))
            ∷ ("open_suggestion", open_json (open_suggestion u.id s'))
            ∷ []),
        s',
      )

  unfoldable pub tool_get_context : String → Option ToolRequest → Time → Store → Response × Store
  unfolding context_of
  tool_get_context gcal req now s = tool_lookup_user req (context_of gcal now) s

  checkin_answer : Result Checkin × Store → Response × Store
  checkin_answer (err e, s) =
      (write_json 500 (("ok", flag false) ∷ ("error", text (error_text e)) ∷ []), s)
  checkin_answer (ok c, s) = (write_json 200 (("ok", flag true) ∷ []), s)

  -- `raw` is the JSON of the request as it was decoded.
  unfoldable pub tool_save_checkin :
      Option ToolRequest → (ToolRequest → String) → Time → Store → Response × Store
  unfolding checkin_answer
  tool_save_checkin req raw now s =
      tool_user req
        (λ r u s'. checkin_answer (save_checkin u r.mood r.summary r.topics (raw r) now s')) now s

  suggestion_answer : Result EventMatch × Store → User → Response × Store
  suggestion_answer (err no_match, s) u = (
    write_json 200 (
        ("event", null)
        ∷ ("no_match", flag true)
        ∷ ("say", text (no_match_line u))
        ∷ (
          "instruction_to_agent",
          text
              "There is no suitable event. Say so honestly and ask what they would want to go to. Do not invent an event.",
        )
        ∷ []),
    s,
  )
  suggestion_answer (err e, s) u = (json_error 404 "no events available", s)
  suggestion_answer (ok m, s) u = (
    write_json 200 (
        ("why", text (why m))
        ∷ (
          "event",
          object (
              ("title", text m.event.title)
              ∷ ("starts_at", text (outside.format stamp m.event.starts_at))
              ∷ ("city", text m.event.city)
              ∷ ("url", text m.event.url)
              ∷ []),
        )
        ∷ []),
    s,
  )

  unfoldable pub tool_suggest_event : Option ToolRequest → Time → Store → Response × Store
  unfolding suggestion_answer
  tool_suggest_event req now s =
      tool_user req (λ r u s'. suggestion_answer (suggest_event u now s') u) now s

  acceptance_answer : Result String × Store → Response × Store
  acceptance_answer (err e, s) =
      (write_json 404 (("ok", flag false) ∷ ("error", text "no open suggestion") ∷ []), s)
  acceptance_answer (ok line, s) =
      (write_json 200 (("ok", flag true) ∷ ("confirmation", text line) ∷ []), s)

  unfoldable pub tool_accept_suggestion : Option ToolRequest → Time → Store → Response × Store
  unfolding acceptance_answer
  tool_accept_suggestion req now s =
      tool_user req (λ r u s'. acceptance_answer (accept_suggestion (show_when outside) u s')) now s

abbrev pub end_of_onboarding_instruction : Bool → String
end_of_onboarding_instruction was_onboarded =
    if was_onboarded
    then "This profile was already complete, so nothing new was learned. Do not end the call and do not repeat these questions - continue the check-in."
    else "Onboarding is complete. Say a short goodbye and call the end_call tool now - do not ask another question."

-- What is still missing sends the agent back; else the call that introduced the person ends.
learnt : List String × User × Store → Bool → ServerState → Response × ServerState
learnt (key ∷ keys, u, s) was_onboarded st = (
  write_json 200 (
      ("ok", flag true)
      ∷ ("name", text u.name)
      ∷ ("interests", text u.interests)
      ∷ ("frequency", text u.frequency)
      ∷ ("onboarding_complete", flag false)
      ∷ ("end_call", flag false)
      ∷ ("missing", arr (items (map text (key ∷ keys))))
      ∷ ("ask_next", text key)
      ∷ ("question", text (question_by_key key).prompt)
      ∷ (
        "instruction_to_agent",
        text (
            "Onboarding is not finished: "
            +s join (key ∷ keys) ", "
            +s " still missing. Ask the question in `question` now, word for word, wait for their answer, and save again. Do not end the call."),
      )
      ∷ []),
  with_store st s,
)
learnt ([], u, s) was_onboarded st = (
  write_json 200 (
      ("ok", flag true)
      ∷ ("name", text u.name)
      ∷ ("interests", text u.interests)
      ∷ ("frequency", text u.frequency)
      ∷ ("onboarding_complete", flag true)
      ∷ ("end_call", flag (not was_onboarded))
      ∷ ("instruction_to_agent", text (end_of_onboarding_instruction was_onboarded))
      ∷ []),
  if was_onboarded then with_store st s else put_off_hangup u (with_store st s),
)

learn_of : Option User × Store → ToolRequest → Time → ServerState → Response × ServerState
unfolding learnt
learn_of (none, s) req now st = (json_error 500 "user lookup failed", with_store st s)
learn_of (some u, s) req now st =
    learnt (save_onboarding u req.name req.interests req.frequency now s) (onboarded u) st

unfoldable pub tool_save_onboarding :
    Option ToolRequest → Time → ServerState → Response × ServerState
unfolding learn_of
tool_save_onboarding none now st = (json_error 400 "invalid json", st)
tool_save_onboarding (some req) now st =
    if str_eq (normalise_phone req.phone) ""
    then (json_error 400 "phone required", st)
    else learn_of (ensure_user (normalise_phone req.phone) now st.store) req now st
