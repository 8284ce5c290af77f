-- ===== src/Brain/Turns/Frame.antt =====
-- brain.go: what a turn of the introduction or of the checklist leaves alone.
use running_hackathon.Prelude.{
  String, not, ◌||◌, ◌≡◌, refl, ◌∙◌, Option, none, some, arith, inl, inr, Bool-cases, str_eq,
  is_some,
}
use running_hackathon.Clock.{Time}
use running_hackathon.Outcome.{Result, ok, err}
use running_hackathon.Db.{User, Session, ChecklistItem, Store}
use running_hackathon.Guarded.{guarded}
use running_hackathon.Checklist.Template.{
  status_unanswered, status_answered, flow_onboarding, flow_checkin, question_by_key,
}
use running_hackathon.Checklist.Replies.{is_yes, classify_reply}
use running_hackathon.Checklist.Sessions.{ensure_session, close_session}
use running_hackathon.Checklist.Sessions.Frame.{ensure_session-guarded}
use running_hackathon.Checklist.Answers.{
  next_checklist_item, set_item_prompt, mark_asked, record_checklist_answer,
}
use running_hackathon.Checklist.Answers.Frame.{record_answer-guarded}
use running_hackathon.Users.{mark_onboarded}
use running_hackathon.Brain.Suggest.Frame.{suggest_event-guarded, accept-guarded}
use running_hackathon.Brain.Turns.{
  finish_onboarding, dynamic_prompt, ask_question, acknowledge, after_answer, answer_taken,
  at_question, in_session, onboarding_turn, next_asked, interview_taken, interview_at, interview_in,
  interview_reply,
}

mark_onboarded-guarded :
    (u : User) (now : Time) (s : Store) → guarded (mark_onboarded u now s).1 ≡ guarded s
unfolding mark_onboarded
mark_onboarded-guarded u now s = ground arith

finish-guarded :
    (u : User) (sess : Session) (now : Time) (s : Store)
    → guarded (finish_onboarding u sess now s).2 ≡ guarded s
unfolding finish_onboarding close_session
finish-guarded u sess now s = mark_onboarded-guarded u now s

module _ (show_when : Time → String) where
  prompt-guarded :
      (u : User) (item : ChecklistItem) (now : Time) (s : Store)
      → guarded (dynamic_prompt show_when u item now s).1 ≡ guarded s
  unfolding dynamic_prompt
  prompt-guarded u item now s = elim (Bool-cases (not (str_eq item.key "event_offer"))) [
    | inl plain ↦ rw plain refl
    | inr offer ↦ rw offer (suggest_event-guarded u now s)
  ]

  ask-guarded :
      (u : User) (item : ChecklistItem) (now : Time) (s : Store)
      → guarded (ask_question show_when u item now s).1 ≡ guarded s
  unfolding ask_question mark_asked set_item_prompt
  ask-guarded u item now s = elim (Bool-cases (question_by_key item.key).dynamic) [
    | inl made ↦ rw made (prompt-guarded u item now s)
    | inr fixed ↦ rw fixed refl
  ]

  acknowledge-guarded :
      (u : User) (key status answer : String) (s : Store)
      → guarded (acknowledge show_when u key status answer s).1 ≡ guarded s
  unfolding acknowledge
  acknowledge-guarded u key status answer s =
      elim (Bool-cases (
        not (str_eq key "event_offer")
        || not (str_eq status status_answered)
        || not (is_yes answer))) [
          | inl nothing ↦ rw nothing refl
          | inr agreed_to ↦ rw agreed_to (accept-guarded show_when u s)
        ]

  after-guarded :
      (o : Option ChecklistItem) (prefix : String) (u : User) (sess : Session) (now : Time)
      (s : Store)
      → guarded (after_answer show_when o prefix u sess now s).2 ≡ guarded s
  unfolding after_answer
  after-guarded none prefix u sess now s = finish-guarded u sess now s
  after-guarded (some next) prefix u sess now s = ask-guarded u next now s

  taken-guarded :
      (r : Result ChecklistItem × User × Store) (current : ChecklistItem) (status answer : String)
      (sess : Session) (now : Time)
      → guarded (answer_taken show_when r current status answer sess now).2 ≡ guarded r.2
  unfolding answer_taken
  taken-guarded (err e, u, s) current status answer sess now = refl
  taken-guarded (ok item, u, s) current status answer sess now =
      let after = (acknowledge show_when u current.key status answer s).1 in
      after-guarded (next_checklist_item u.id sess.id after) _ u sess now after
      ∙ acknowledge-guarded u current.key status answer s

  question-guarded :
      (o : Option ChecklistItem) (u : User) (sess : Session) (inbound : String) (now : Time)
      (s : Store)
      → guarded (at_question show_when o u sess inbound now s).2 ≡ guarded s
  unfolding at_question
  question-guarded none u sess inbound now s = finish-guarded u sess now s
  question-guarded (some current) u sess inbound now s =
      let (status, answer) = classify_reply inbound in
      let recorded =
        record_checklist_answer u sess.id current.key (classify_reply inbound).0
          (classify_reply inbound).1 now s in
      elim (Bool-cases (not (is_some current.asked_at))) [
        | inl unasked ↦ rw unasked (ask-guarded u current now s)
        | inr asked ↦ elim (Bool-cases (str_eq (classify_reply inbound).0 status_unanswered)) [
          | inl silent ↦ rw (asked, silent) refl
          | inr spoke ↦
              rw (asked, spoke)
                (taken-guarded recorded current (classify_reply inbound).0
                    (classify_reply inbound).1 sess now
                  ∙ record_answer-guarded u sess.id current.key (classify_reply inbound).0
                      (classify_reply inbound).1 now s)
        ]
      ]

  session-guarded :
      (r : Result Session × Store) (u : User) (inbound : String) (now : Time)
      → guarded (in_session show_when r u inbound now).2 ≡ guarded r.1
  unfolding in_session
  session-guarded (err e, s) u inbound now = refl
  session-guarded (ok sess, s) u inbound now =
      question-guarded (next_checklist_item u.id sess.id s) u sess inbound now s

  -- A turn of the introduction leaves the guarded tables as they were.
  pub onboarding_turn-guarded :
      (u : User) (channel inbound : String) (now : Time) (s : Store)
      → guarded (onboarding_turn show_when u channel inbound now s).2 ≡ guarded s
  unfolding onboarding_turn
  onboarding_turn-guarded u channel inbound now s =
      session-guarded (ensure_session (some u) channel flow_onboarding now s) u inbound now
      ∙ ensure_session-guarded (some u) channel flow_onboarding now s

next_asked-guarded :
    (o : Option ChecklistItem) (u : User) (now : Time) (s : Store)
    → guarded (next_asked o u now s).2 ≡ guarded s
unfolding next_asked mark_asked
next_asked-guarded none u now s = refl
next_asked-guarded (some next) u now s = refl

interview_taken-guarded :
    (r : Result ChecklistItem × User × Store) (current : ChecklistItem) (sess : Session)
    (now : Time)
    → guarded (interview_taken r current sess now).2 ≡ guarded r.2
unfolding interview_taken
interview_taken-guarded (err e, u, s) current sess now = refl
interview_taken-guarded (ok item, u, s) current sess now =
    next_asked-guarded (next_checklist_item u.id sess.id s) u now s

interview_at-guarded :
    (o : Option ChecklistItem) (u : User) (sess : Session) (inbound : String) (now : Time)
    (s : Store)
    → guarded (interview_at o u sess inbound now s).2 ≡ guarded s
unfolding interview_at mark_asked
interview_at-guarded none u sess inbound now s = refl
interview_at-guarded (some current) u sess inbound now s =
    let said = classify_reply inbound in
    elim (Bool-cases (not (is_some current.asked_at))) [
      | inl unasked ↦ rw unasked refl
      | inr asked ↦ elim (Bool-cases (str_eq said.0 status_unanswered)) [
        | inl silent ↦ rw (asked, silent) refl
        | inr spoke ↦
            rw (asked, spoke)
              (interview_taken-guarded
                  (record_checklist_answer u sess.id current.key said.0 said.1 now s) current sess
                  now
                ∙ record_answer-guarded u sess.id current.key said.0 said.1 now s)
      ]
    ]

interview_in-guarded :
    (r : Result Session × Store) (u : User) (inbound : String) (now : Time)
    → guarded (interview_in r u inbound now).2 ≡ guarded r.1
unfolding interview_in
interview_in-guarded (err e, s) u inbound now = refl
interview_in-guarded (ok sess, s) u inbound now =
    interview_at-guarded (next_checklist_item u.id sess.id s) u sess inbound now s

pub interview_reply-guarded :
    (u : User) (inbound : String) (now : Time) (s : Store)
    → guarded (interview_reply u inbound now s).2 ≡ guarded s
unfolding interview_reply
interview_reply-guarded u inbound now s =
    interview_in-guarded (ensure_session (some u) "sms" flow_checkin now s) u inbound now
    ∙ ensure_session-guarded (some u) "sms" flow_checkin now s
