-- ===== src/Server/Tools.antt =====
-- ingest.go: the tools that a voice agent calls for the checklist. A request is what the body decodes to, or
-- `none` where it is no JSON. A field that is missing is the empty text.
use running_hackathon.Prelude.{
  ◌+◌, String, Bool, true, false, not, Option, none, some, List, [], ◌∷◌, ◌++◌, length, str_eq,
  if◌then◌else◌,
}
use running_hackathon.Clock.{Time}
use running_hackathon.Outcome.{error_text, Result, ok, err, not_current_item}
use running_hackathon.Str.{trim_space}
use running_hackathon.Json.{Json, flag, num, text, object, Response, plain, write_json}
use running_hackathon.Outside.{Outside}
use running_hackathon.Phone.{normalise_phone, is_e164}
use running_hackathon.Db.{User, Session, ChecklistItem, Store}
use running_hackathon.Users.{ensure_user}
use running_hackathon.Checklist.Template.{flow_for, flow_onboarding, status_answered, template_for}
use running_hackathon.Checklist.Sessions.{ensure_session}
use running_hackathon.Checklist.Answers.{next_checklist_item, record_checklist_answer}
use running_hackathon.Signals.Webhooks.{remember_webhook, store_webhook_response}
use running_hackathon.Brain.Turns.{ask_question, acknowledge, finish_onboarding}
use running_hackathon.Brain.Model.{show_when}
use running_hackathon.Server.SignIn.{json_error}

pub record ChecklistRequest : Type 0 where
  pub phone : String
  pub key : String
  pub status : String
  pub answer : String
  pub channel : String
  pub idempotency_key : String

-- Whether the handler answers at once or goes on.
pub data Admitted {ℓ} (A : Type ℓ) : Type ℓ where
  turned_away : Response → Admitted A
  admitted : A → Admitted A

session_opened : Result Session × Store → User → Admitted (User × Session) × Store
session_opened (err e, s) u = (turned_away (json_error 400 (error_text e)), s)
session_opened (ok sess, s) u = (admitted (u, sess), s)

user_ensured : Option User × Store → String → Time → Admitted (User × Session) × Store
unfolding session_opened
user_ensured (none, s) channel now = (turned_away (json_error 500 "user lookup failed"), s)
user_ensured (some u, s) channel now =
    session_opened
      (ensure_session (some u) (if str_eq channel "" then "call" else channel) (flow_for (some u))
        now s)
      u

-- The flow is decided by the profile, not by the caller.
unfoldable pub checklist_user : ChecklistRequest → Time → Store → Admitted (User × Session) × Store
unfolding user_ensured
checklist_user req now s =
    if not (is_e164 (normalise_phone req.phone))
    then (turned_away (json_error 400 "phone must be E.164"), s)
    else user_ensured (ensure_user (normalise_phone req.phone) now s) req.channel now

abbrev invalid_json : Response
invalid_json = json_error 400 "invalid json"

abbrev pub raw_json : String → Response
raw_json body = record { status = 200; body = plain body; cookie = none }

module _ (outside : Outside) where
  next_answer : Option ChecklistItem → User → Session → Time → Store → Response × Store
  next_answer none u sess now s = (
    write_json 200 (
        ("complete", flag true)
        ∷ ("session_id", num sess.id)
        ∷ (
          "instruction_to_agent",
          text
              "The checklist is complete. Do not ask further preference questions and do not act on the answers without asking permission first.",
        )
        ∷ []),
    s,
  )
  next_answer (some item) u sess now s =
      let (question, s') = ask_question (show_when outside) u item now s in
      (
        write_json 200 (
            ("complete", flag false)
            ∷ ("session_id", num sess.id)
            ∷ ("flow", text sess.flow)
            ∷ ("key", text item.key)
            ∷ ("question", text question)
            ∷ ("position", num (item.position + 1))
            ∷ ("total", num (length (template_for sess.flow)))
            ∷ (
              "instruction_to_agent",
              text
                  "Ask this question exactly as written, then wait for their answer. Do not ask anything else and do not answer it for them.",
            )
            ∷ []),
        s',
      )

  next_for : Admitted (User × Session) × Store → Time → Response × Store
  unfolding next_answer
  next_for (turned_away r, s) now = (r, s)
  next_for (admitted (u, sess), s) now =
      next_answer (next_checklist_item u.id sess.id s) u sess now s

  unfoldable pub tool_next_question : Option ChecklistRequest → Time → Store → Response × Store
  unfolding next_for
  tool_next_question none now s = (invalid_json, s)
  tool_next_question (some req) now s = next_for (checklist_user req now s) now

  -- What follows an answer that was saved: the closing line, or the next question.
  follow_up : Option ChecklistItem → User → Session → Time → Store → List (String × Json) × Store
  follow_up none u sess now s =
      if str_eq sess.flow flow_onboarding
      then (let (line, u', s') = finish_onboarding u sess now s in
          (
            ("complete", flag true)
                ∷ ("closing_line", text line)
                ∷ (
                  "instruction_to_agent",
                  text
                      "Onboarding is done. Say the closing line, then end the call. Do not start a check-in on this call.",
                )
                ∷ [],
            s',
          ))
      else (
        ("complete", flag true)
            ∷ (
              "instruction_to_agent",
              text
                  "That was the last question. Ask whether they want to be notified before you promise anything.",
            )
            ∷ [],
        s,
      )
  follow_up (some next) u sess now s =
      let (question, s') = ask_question (show_when outside) u next now s in
      (
        (
          "next",
          object (
              ("key", text next.key)
              ∷ ("question", text question)
              ∷ ("position", num (next.position + 1))
              ∷ []),
        )
            ∷ (
              "instruction_to_agent",
              text "Ask the next question exactly as written and wait for the answer.",
            )
            ∷ [],
        s',
      )

  abbrev save_endpoint : String
  save_endpoint = "/tools/save_answer"

  remembered : String → String → Store → Store
  remembered key body s =
      if str_eq key "" then s else store_webhook_response save_endpoint key body s

  abbrev say_first : String → List (String × Json)
  say_first line =
      if str_eq (trim_space line) "" then [] else ("say_first", text (trim_space line)) ∷ []

  -- The next question is read before the suggestion is accepted.
  answer_saved :
      Result ChecklistItem × User × Store → ChecklistRequest → Session → Time → Response × Store
  unfolding follow_up remembered
  answer_saved (err not_current_item, u, s) req sess now =
      (write_json 409 (("ok", flag false) ∷ ("error", text (error_text not_current_item)) ∷ []), s)
  answer_saved (err e, u, s) req sess now =
      (write_json 400 (("ok", flag false) ∷ ("error", text (error_text e)) ∷ []), s)
  answer_saved (ok item, u, s) req sess now =
      let next = next_checklist_item u.id sess.id s in
      let (line, s') = acknowledge (show_when outside) u item.key item.status item.answer s in
      let (rest, s'') = follow_up next u sess now s' in
      let out =
        ("ok", flag true)
        ∷ (
          "saved",
          object (
              ("key", text item.key)
              ∷ ("status", text item.status)
              ∷ ("answer", text item.answer)
              ∷ []),
        )
        ∷ (say_first line ++ rest) in
      (write_json 200 out, remembered req.idempotency_key (outside.encode (object out)) s'')

  save_now : User → ChecklistRequest → Session → Time → Store → Response × Store
  unfolding answer_saved
  save_now u req sess now s =
      answer_saved
        (record_checklist_answer u sess.id req.key
          (if str_eq req.status "" then status_answered else req.status) req.answer now s)
        req sess now

  -- A delivery that came before is answered from the first one.
  save_once : (Bool × String) × Store → User → ChecklistRequest → Session → Time → Response × Store
  unfolding save_now
  save_once ((true, cached), s) u req sess now = save_now u req sess now s
  save_once ((false, cached), s) u req sess now =
      (raw_json (if str_eq cached "" then "{\"ok\":true,\"replayed\":true}" else cached), s)

  save_for : Admitted (User × Session) × Store → ChecklistRequest → Time → Response × Store
  unfolding save_once
  save_for (turned_away r, s) req now = (r, s)
  save_for (admitted (u, sess), s) req now =
      if str_eq req.idempotency_key ""
      then save_now u req sess now s
      else save_once (remember_webhook save_endpoint req.idempotency_key u.id "" s) u req sess now

  unfoldable pub tool_save_answer : Option ChecklistRequest → Time → Store → Response × Store
  unfolding save_for
  tool_save_answer none now s = (invalid_json, s)
  tool_save_answer (some req) now s = save_for (checklist_user req now s) req now
