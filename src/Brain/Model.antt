-- ===== src/Brain/Model.antt =====
-- brain.go, reply: the conversation with the language model after the checklist is settled, and Reply, which
-- chooses between the introduction, the checklist and the model.
pub mod Gate
pub mod Reach
use running_hackathon.Prelude.{
  ℕ, zero, suc, String, Bool, true, false, not, ◌&&◌, Option, none, some, List, [], ◌∷◌, ◌++◌,
  str_eq, if◌then◌else◌, map, ltb,
}
use running_hackathon.Clock.{Time}
use running_hackathon.Outcome.{Error, error_text, Result, ok, err, no_match}
use running_hackathon.Str.{trim_space, ◌+s◌}
use running_hackathon.Decimal.{decimal}
use running_hackathon.Json.{Json, flag, text, object}
use running_hackathon.Outside.{
  CalendarEvent, Block, said, tool_use, tool_result, other_block, Message, CheckinArgs, Outside,
}
use running_hackathon.Db.{User, Checkin, Event, ChecklistItem, Session, Store}
use running_hackathon.Auth.Sessions.{phone_verified}
use running_hackathon.Checklist.Template.{flow_for, onboarded}
use running_hackathon.Checklist.Sessions.{ensure_session}
use running_hackathon.Checklist.Answers.{checklist}
use running_hackathon.Signals.Observations.{Reading, readings}
use running_hackathon.Matching.{EventMatch, why}
use running_hackathon.Activity.{
  Suggestion, recent_checkins, recent_messages, add_message, open_suggestion, accepted_suggestions,
}
use running_hackathon.Brain.Suggest.{no_match_line, save_checkin, suggest_event, accept_suggestion}
use running_hackathon.Brain.Turns.{fallback_reply, onboarding_turn, interview_reply}

abbrev or_else : String → String → String
or_else value fallback = if str_eq value "" then fallback else value

-- The lines of a block, one after the other.
lines {ℓ} : {A : Type ℓ} → (A → String) → List A → String
lines line [] = ""
lines line (x ∷ xs) = line x +s lines line xs

last_of {ℓ} : {A : Type ℓ} → List A → Option A
last_of [] = none
last_of (x ∷ []) = some x
last_of (x ∷ y ∷ xs) = last_of (y ∷ xs)

abbrev pub tool_turns : ℕ
tool_turns = 5

module _ (outside : Outside) where
  abbrev pub show_when : Time → String
  show_when = outside.format "Mon 2 Jan at 15:04"

  -- CalendarFor; `gcal` is the feed of the service.
  abbrev pub calendar_for : String → User → List CalendarEvent
  calendar_for gcal u = outside.today (or_else u.ics_url gcal)

  -- Reading.Describe
  unfoldable pub describe : Reading → String
  describe r =
      if not r.known
      then r.kind +s ": unknown (" +s r.unknown +s ")"
      else r.kind
        +s ": "
        +s (if str_eq r.unit "" then r.value else r.value +s " " +s r.unit)
        +s " (source "
        +s r.source
        +s ", observed "
        +s outside.format "Mon 2 Jan 15:04" r.as_of
        +s ")"

  checkin_line : Checkin → String
  checkin_line c =
      "- "
      +s outside.format "Mon 2 Jan" c.created_at
      +s " | mood "
      +s elim c.mood [ none ↦ "?" | some m ↦ decimal m ]
      +s " | "
      +s c.summary
      +s " | topics: "
      +s c.topics
      +s "\n"

  item_line : ChecklistItem → String
  item_line c =
      "- "
      +s c.key
      +s " ["
      +s c.status
      +s "]: "
      +s c.prompt
      +s " | "
      +s or_else c.answer "-"
      +s "\n"

  checklist_lines : Result Session × Store → User → String × Store
  checklist_lines (err e, s) u = ("", s)
  checklist_lines (ok sess, s) u = (lines item_line (checklist u.id sess.id s), s)

  suggestion_line : Result Suggestion → String
  suggestion_line (err e) = "(none)\n"
  suggestion_line (ok g) =
      g.event.title
      +s " on "
      +s outside.format "Mon 2 Jan 15:04" g.event.starts_at
      +s " - "
      +s g.event.url
      +s " (awaiting their yes/no)\n"

  -- The session for the checklist is opened where there is none.
  unfoldable pub context_block : String → User → Time → Store → String × Store
  unfolding checkin_line item_line checklist_lines suggestion_line lines
  context_block gcal u now s =
      let checkins = recent_checkins u.id 10 s in
      let events = calendar_for gcal u in
      let (items, s') =
        checklist_lines (ensure_session (some u) "sms" (flow_for (some u)) now s) u in
      (
        "<user>\nname: "
            +s or_else u.name "(unknown)"
            +s "\nphone: "
            +s u.phone
            +s "\nphone_verified: "
            +s (if phone_verified u
                then "yes (" +s u.phone_verified_via +s ")"
                else "no (number not yet proved)")
            +s "\ninterests: "
            +s or_else u.interests "(not stated yet)"
            +s "\nlocal_time: "
            +s outside.format "Mon 2 Jan 15:04" now
            +s "\n</user>\n<signals>\n"
            +s lines (λ r. "- " +s describe r +s "\n")
                (readings (outside.format "Mon 2 Jan 15:04") u.id now s)
            +s "</signals>\n<recent_checkins>\n"
            +s elim checkins [
              | [] ↦ "(none yet - this is their first conversation)\n"
              | c ∷ cs ↦ lines checkin_line (c ∷ cs)
            ]
            +s "</recent_checkins>\n<todays_calendar>\n"
            +s elim events [
              | [] ↦ "(empty - no calendar events today)\n"
              | e ∷ es ↦
                  lines (λ (v : CalendarEvent). "- " +s v.when +s " " +s v.summary +s "\n") (e ∷ es)
            ]
            +s "</todays_calendar>\n<checklist>\n"
            +s items
            +s "</checklist>\n<open_suggestion>\n"
            +s suggestion_line (open_suggestion u.id s')
            +s "</open_suggestion>",
        s',
      )

  suggested : Result EventMatch → User → Json
  suggested (err no_match) u =
      object (("ok", flag false) ∷ ("no_match", flag true) ∷ ("say", text (no_match_line u)) ∷ [])
  suggested (err e) u = object (("ok", flag false) ∷ ("error", text "no events available") ∷ [])
  suggested (ok m) u = object (
      ("ok", flag true)
      ∷ ("why", text (why m))
      ∷ (
        "event",
        object (
            ("title", text m.event.title)
            ∷ ("starts_at", text (outside.format "2006-01-02T15:04:05Z07:00" m.event.starts_at))
            ∷ ("when", text (outside.format "Mon 2 Jan, 15:04" m.event.starts_at))
            ∷ ("city", text m.event.city)
            ∷ ("url", text m.event.url)
            ∷ ("tags", text m.event.tags)
            ∷ []),
      )
      ∷ [])

  -- Nothing on offer: the last event that they are signed up for, if any.
  nothing_open : Option Suggestion → Json
  nothing_open none = object (("ok", flag false) ∷ ("error", text "no open suggestion") ∷ [])
  nothing_open (some g) = object (
      ("ok", flag true)
      ∷ ("already_signed_up", flag true)
      ∷ (
        "confirmation",
        text (
            "They are already on the list for "
            +s g.event.title
            +s " on "
            +s show_when g.event.starts_at
            +s "."),
      )
      ∷ [])

  accepted_answer : Result String → User → Store → Json
  unfolding last_of nothing_open
  accepted_answer (err e) u s = nothing_open (last_of (accepted_suggestions u.id s))
  accepted_answer (ok line) u s = object (("ok", flag true) ∷ ("confirmation", text line) ∷ [])

  saved : Result Checkin → Json
  saved (err e) = object (("ok", flag false) ∷ ("error", text (error_text e)) ∷ [])
  saved (ok c) = object (("ok", flag true) ∷ [])

  unfoldable pub run_tool : User → String → String → Time → Store → Json × Store
  unfolding suggested accepted_answer saved
  run_tool u name input now s =
      if str_eq name "save_checkin"
      then (let args = outside.decode_checkin input in
          let (got, s') = save_checkin u args.mood args.summary args.topics input now s in
          (saved got, s'))
      else if str_eq name "suggest_event"
      then (let (got, s') = suggest_event u now s in (suggested got u, s'))
      else if str_eq name "accept_suggestion"
      then (let (got, s') = accept_suggestion show_when u s in (accepted_answer got u s', s'))
      else (object (("ok", flag false) ∷ ("error", text ("unknown tool " +s name)) ∷ []), s)

  -- The text and the results of the tools of one answer, and the store after the tools.
  unfoldable pub run_blocks : User → List Block → Time → Store → String × List Block × Store
  run_blocks u [] now s = ("", [], s)
  run_blocks u (said line ∷ blocks) now s =
      let (out, results, s') = run_blocks u blocks now s in (line +s out, results, s')
  run_blocks u (tool_use id name input ∷ blocks) now s =
      let ran = run_tool u name input now s in
      let (out, results, s') = run_blocks u blocks now ran.1 in
      (out, tool_result id (outside.encode ran.0) ∷ results, s')
  run_blocks u (tool_result id content ∷ blocks) now s = run_blocks u blocks now s
  run_blocks u (other_block ∷ blocks) now s = run_blocks u blocks now s

  abbrev final_line : String → String
  final_line out = if str_eq (trim_space out) "" then fallback_reply else trim_space out

  -- The loop over at most `turns` answers of the model.
  tool_loop :
      ℕ → (List Message → Option (List Block)) → User → List Message → Time → Store → String × Store
  tool_loop zero create u msgs now s = (fallback_reply, s)
  tool_loop (suc turns) create u msgs now s = elim (create msgs) [
    | none ↦ (fallback_reply, s)
    | some content ↦
        let (out, results, s') = run_blocks u content now s in
        elim results [
          | [] ↦ (final_line out, s')
          | r ∷ rs ↦
              tool_loop turns create u
                (msgs
                  ++ record { role = "assistant"; content = content }
                    ∷ record { role = "user"; content = r ∷ rs }
                    ∷ [])
                now s'
        ]
  ]

  abbrev says : String → String → Message
  says role line = record { role = role; content = said line ∷ [] }

  -- Messages with an empty body are left out.
  unfoldable pub history_messages : List (String × String) → List Message
  history_messages [] = []
  history_messages ((role, body) ∷ history) =
      let rest = history_messages history in
      if str_eq (trim_space body) ""
      then rest
      else (if str_eq role "assistant" then says "assistant" body else says "user" body) ∷ rest

  unfoldable pub model_reply : String → User → Time → Store → String × Store
  unfolding tool_loop
  model_reply gcal u now s = elim outside.create_message [
    | none ↦ (fallback_reply, s)
    | some create ↦
        let (context, s') = context_block gcal u now s in
        tool_loop tool_turns create u
          (says "user" context
            ∷ says "assistant" "Got it - I have their history and today's calendar in mind."
            ∷ history_messages (recent_messages u.id 20 s))
          now s'
  ]

  handled : Option String × User × Store → String → Time → String × User × Store
  handled (some line, u, s) gcal now = (line, u, s)
  handled (none, u, s) gcal now = let (line, s') = model_reply gcal u now s in (line, u, s')

  -- Reply: the message and the answer are kept.
  unfoldable pub reply : String → User → String → Time → Store → String × User × Store
  unfolding handled
  reply gcal u inbound now s =
      let kept = add_message u.id "user" inbound s in
      let (line, u', s') =
        (if not (onboarded u)
          then onboarding_turn show_when u "sms" inbound now kept
          else handled (interview_reply u inbound now kept) gcal now) in
      (line, u', add_message u.id "assistant" line s')
