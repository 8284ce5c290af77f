-- ===== src/Brain/Turns.antt =====
-- brain.go: OnboardingTurn, one turn of the introduction, and interviewReply, one turn of the check-in
-- checklist. `show_when` is the layout of a time for people. A turn gives what is said, the profile in
-- memory and the store. The store's reads succeed, so that only EnsureSession can fail.
pub mod Frame
use running_hackathon.Prelude.{
  ℕ, String, Bool, true, false, not, ◌&&◌, ◌||◌, Option, none, some, str_eq, if◌then◌else◌, is_some,
}
use running_hackathon.Clock.{Time}
use running_hackathon.Outcome.{Error, Result, ok, err, unusable_answer}
use running_hackathon.Str.{◌+s◌}
use running_hackathon.Db.{User, Session, ChecklistItem, Store}
use running_hackathon.Checklist.Template.{
  status_unanswered, status_answered, flow_onboarding, flow_checkin, question_by_key,
}
use running_hackathon.Checklist.Replies.{is_yes, classify_reply}
use running_hackathon.Checklist.Sessions.{ensure_session, close_session, settled_status}
use running_hackathon.Checklist.Answers.{
  next_checklist_item, set_item_prompt, mark_asked, record_checklist_answer,
}
use running_hackathon.Users.{mark_onboarded}
use running_hackathon.Matching.{EventMatch, why}
use running_hackathon.Brain.Suggest.{no_match_line, suggest_event, accept_suggestion}

abbrev pub interview_complete_line : String
interview_complete_line =
    "That's everything I wanted to ask, thank you. Would you like me to text you when something matching that comes up?"

abbrev pub onboarding_done_line : String
onboarding_done_line =
    "That's you set up. I'll leave you to it and speak to you at your next check-in."

abbrev pub onboarding_declined_line : String
onboarding_declined_line =
    "No problem, I won't check in on a schedule. You're set up, so text me whenever you want an event suggestion."

abbrev pub re_ask_line : String
re_ask_line = "I didn't catch an answer there, so I'll leave that one open. "

abbrev pub unusable_line : String
unusable_line = "Sorry, I didn't get that. "

abbrev pub fallback_reply : String
fallback_reply =
    "Thanks for checking in - I've noted that down. My brain's offline for a moment, but tell me: what's the one thing that stood out about today?"

abbrev pub is_unusable : Error → Bool
is_unusable unusable_answer = true
is_unusable _ = false

-- Whether somebody agreed to be contacted again.
abbrev pub agreed : Option (String × String) → Bool
agreed none = false
agreed (some settled) = str_eq settled.0 status_answered

unfoldable pub finish_onboarding : User → Session → Time → Store → String × User × Store
finish_onboarding u sess now s =
    let (u', s') = mark_onboarded u now s in
    let closed = close_session u.id sess.id s' in
    (
      (if agreed (settled_status u.id "checkin_consent" closed)
          then onboarding_done_line
          else onboarding_declined_line),
      u',
      closed,
    )

-- What is said when an answer is refused: the question again.
abbrev pub put_again : Error → ChecklistItem → String
put_again e current = if is_unusable e then unusable_line +s current.prompt else current.prompt

module _ (show_when : Time → String) where
  offer_line : Result EventMatch → User → String
  offer_line (err e) u = no_match_line u
  offer_line (ok m) u =
      "Going off that, one thing worth your time: "
      +s m.event.title
      +s ", "
      +s show_when m.event.starts_at
      +s " in "
      +s m.event.city
      +s ". "
      +s why m
      +s " Want me to put your name down?"

  unfoldable pub dynamic_prompt : User → ChecklistItem → Time → Store → String × Store
  unfolding offer_line
  dynamic_prompt u item now s =
      if not (str_eq item.key "event_offer")
      then (item.prompt, s)
      else let (match, s') = suggest_event u now s in (offer_line match u, s')

  unfoldable pub ask_question : User → ChecklistItem → Time → Store → String × Store
  ask_question u item now s =
      if (question_by_key item.key).dynamic
      then (let (prompt, s') = dynamic_prompt u item now s in
          (prompt, mark_asked u.id item.id now (set_item_prompt u.id item.id prompt s')))
      else (item.prompt, mark_asked u.id item.id now s)

  confirmed : Result String → String
  confirmed (err e) = ""
  confirmed (ok line) = line +s " "

  unfoldable pub acknowledge : User → String → String → String → Store → String × Store
  unfolding confirmed
  acknowledge u key status answer s =
      if not (str_eq key "event_offer")
        || not (str_eq status status_answered)
        || not (is_yes answer)
      then ("", s)
      else let (accepted, s') = accept_suggestion show_when u s in (confirmed accepted, s')

  after_answer :
      Option ChecklistItem → String → User → Session → Time → Store → String × User × Store
  after_answer none prefix u sess now s =
      let (line, u', s') = finish_onboarding u sess now s in (prefix +s line, u', s')
  after_answer (some next) prefix u sess now s =
      let (line, s') = ask_question u next now s in (prefix +s line, u, s')

  answer_taken :
      Result ChecklistItem × User × Store
      → ChecklistItem
      → String
      → String
      → Session
      → Time
      → String × User × Store
  unfolding after_answer
  answer_taken (err e, u, s) current status answer sess now = (put_again e current, u, s)
  answer_taken (ok item, u, s) current status answer sess now =
      let (prefix, s') = acknowledge u current.key status answer s in
      after_answer (next_checklist_item u.id sess.id s') prefix u sess now s'

  at_question :
      Option ChecklistItem → User → Session → String → Time → Store → String × User × Store
  unfolding answer_taken
  at_question none u sess inbound now s = finish_onboarding u sess now s
  at_question (some current) u sess inbound now s =
      if not (is_some current.asked_at)
      then (let (line, s') = ask_question u current now s in (line, u, s'))
      else let (status, answer) = classify_reply inbound in
        if str_eq status status_unanswered
        then (re_ask_line +s current.prompt, u, s)
        else answer_taken (record_checklist_answer u sess.id current.key status answer now s)
            current status answer sess now

  in_session : Result Session × Store → User → String → Time → String × User × Store
  unfolding at_question
  in_session (err e, s) u inbound now = (fallback_reply, u, s)
  in_session (ok sess, s) u inbound now =
      at_question (next_checklist_item u.id sess.id s) u sess inbound now s

  unfoldable pub onboarding_turn : User → String → String → Time → Store → String × User × Store
  unfolding in_session
  onboarding_turn u channel inbound now s =
      in_session (ensure_session (some u) channel flow_onboarding now s) u inbound now

next_asked : Option ChecklistItem → User → Time → Store → Option String × User × Store
next_asked none u now s = (some interview_complete_line, u, s)
next_asked (some next) u now s = (some next.prompt, u, mark_asked u.id next.id now s)

interview_taken :
    Result ChecklistItem × User × Store
    → ChecklistItem
    → Session
    → Time
    → Option String × User × Store
unfolding next_asked
interview_taken (err e, u, s) current sess now = (some (put_again e current), u, s)
interview_taken (ok item, u, s) current sess now =
    next_asked (next_checklist_item u.id sess.id s) u now s

interview_at :
    Option ChecklistItem → User → Session → String → Time → Store → Option String × User × Store
unfolding interview_taken
interview_at none u sess inbound now s = (none, u, s)
interview_at (some current) u sess inbound now s =
    if not (is_some current.asked_at)
    then (some current.prompt, u, mark_asked u.id current.id now s)
    else let (status, answer) = classify_reply inbound in
      if str_eq status status_unanswered
      then (some (re_ask_line +s current.prompt), u, s)
      else interview_taken (record_checklist_answer u sess.id current.key status answer now s)
          current sess now

interview_in : Result Session × Store → User → String → Time → Option String × User × Store
unfolding interview_at
interview_in (err e, s) u inbound now = (none, u, s)
interview_in (ok sess, s) u inbound now =
    interview_at (next_checklist_item u.id sess.id s) u sess inbound now s

-- `none` hands the message to the model.
unfoldable pub interview_reply : User → String → Time → Store → Option String × User × Store
unfolding interview_in
interview_reply u inbound now s =
    interview_in (ensure_session (some u) "sms" flow_checkin now s) u inbound now
