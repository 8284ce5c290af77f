-- ===== src/Brain/Model/Reach.antt =====
-- brain.go, Reply: what a conversation can reach in the store, whatever the language model answers.
use running_hackathon.Prelude.{
  ℕ, zero, suc, String, not, ◌≡◌, refl, ◌∙◌, Option, none, some, List, [], ◌∷◌, ◌⊎◌, inl, inr,
  Bool-cases, Option-cases, str_eq,
}
use running_hackathon.Clock.{Time}
use running_hackathon.Outcome.{Result, ok, err}
use running_hackathon.Outside.{Block, said, tool_use, tool_result, other_block, Message, Outside}
use running_hackathon.Db.{User, Session, Store}
use running_hackathon.Guarded.{guarded}
use running_hackathon.Checklist.Template.{flow_for, onboarded}
use running_hackathon.Checklist.Sessions.{ensure_session}
use running_hackathon.Checklist.Sessions.Frame.{ensure_session-guarded}
use running_hackathon.Activity.{add_message}
use running_hackathon.Brain.Suggest.Frame.{
  save_checkin-guarded, suggest_event-guarded, accept-guarded,
}
use running_hackathon.Brain.Turns.{interview_reply}
use running_hackathon.Brain.Turns.Frame.{onboarding_turn-guarded, interview_reply-guarded}
use running_hackathon.Brain.Model.{
  show_when, checklist_lines, context_block, run_tool, run_blocks, tool_loop, model_reply, handled,
  reply, tool_turns,
}

List-cases : (xs : List Block) → (xs ≡ []) ⊎ ((x : Block) × (ys : List Block) × (xs ≡ x ∷ ys))
List-cases [] = inl refl
List-cases (x ∷ ys) = inr (x, ys, refl)

module _ (outside : Outside) where
  lines-guarded :
      (r : Result Session × Store) (u : User)
      → guarded (checklist_lines outside r u).1 ≡ guarded r.1
  unfolding checklist_lines
  lines-guarded (err e, s) u = refl
  lines-guarded (ok sess, s) u = refl

  context-guarded :
      (gcal : String) (u : User) (now : Time) (s : Store)
      → guarded (context_block outside gcal u now s).1 ≡ guarded s
  unfolding context_block
  context-guarded gcal u now s =
      lines-guarded (ensure_session (some u) "sms" (flow_for (some u)) now s) u
      ∙ ensure_session-guarded (some u) "sms" (flow_for (some u)) now s

  tool-guarded :
      (u : User) (name input : String) (now : Time) (s : Store)
      → guarded (run_tool outside u name input now s).1 ≡ guarded s
  unfolding run_tool
  tool-guarded u name input now s =
      let args = outside.decode_checkin input in
      elim (Bool-cases (str_eq name "save_checkin")) [
        | inl saving ↦
            rw saving (save_checkin-guarded u args.mood args.summary args.topics input now s)
        | inr other ↦ elim (Bool-cases (str_eq name "suggest_event")) [
          | inl suggesting ↦ rw (other, suggesting) (suggest_event-guarded u now s)
          | inr neither ↦ elim (Bool-cases (str_eq name "accept_suggestion")) [
            | inl accepting_it ↦
                rw (other, neither, accepting_it) (accept-guarded (show_when outside) u s)
            | inr unknown ↦ rw (other, neither, unknown) refl
          ]
        ]
      ]

  blocks-guarded :
      (u : User) (blocks : List Block) (now : Time) (s : Store)
      → guarded (run_blocks outside u blocks now s).2 ≡ guarded s
  unfolding run_blocks
  blocks-guarded u [] now s = refl
  blocks-guarded u (said line ∷ blocks) now s = blocks-guarded u blocks now s
  blocks-guarded u (tool_use id name input ∷ blocks) now s =
      blocks-guarded u blocks now (run_tool outside u name input now s).1
      ∙ tool-guarded u name input now s
  blocks-guarded u (tool_result id content ∷ blocks) now s = blocks-guarded u blocks now s
  blocks-guarded u (other_block ∷ blocks) now s = blocks-guarded u blocks now s

  loop-guarded :
      (turns : ℕ) (create : List Message → Option (List Block)) (u : User) (msgs : List Message)
      (now : Time) (s : Store)
      → guarded (tool_loop outside turns create u msgs now s).1 ≡ guarded s
  unfolding tool_loop
  loop-guarded zero create u msgs now s = refl
  loop-guarded (suc turns) create u msgs now s = elim (Option-cases (create msgs)) [
    | inl failed ↦ rw (failed, tool_loop) refl
    | inr (content, got) ↦ elim (List-cases (run_blocks outside u content now s).1) [
      | inl silent ↦ rw (got, silent, tool_loop) (blocks-guarded u content now s)
      | inr (r, rs, called) ↦
          rw (got, called, tool_loop)
            (loop-guarded turns create u _ now (run_blocks outside u content now s).2
              ∙ blocks-guarded u content now s)
    ]
  ]

  model-guarded :
      (gcal : String) (u : User) (now : Time) (s : Store)
      → guarded (model_reply outside gcal u now s).1 ≡ guarded s
  unfolding model_reply
  model-guarded gcal u now s = elim (Option-cases outside.create_message) [
    | inl offline ↦ rw (offline, model_reply) refl
    | inr (create, online) ↦
        rw (online, model_reply)
          (loop-guarded tool_turns create u _ now (context_block outside gcal u now s).1
            ∙ context-guarded gcal u now s)
  ]

  handled-guarded :
      (r : Option String × User × Store) (gcal : String) (now : Time)
      → guarded (handled outside r gcal now).2 ≡ guarded r.2
  unfolding handled
  handled-guarded (some line, u, s) gcal now = refl
  handled-guarded (none, u, s) gcal now = model-guarded gcal u now s

  -- Whatever the person writes and the language model answers, with whichever tools, a reply leaves the
  -- sign-in codes, the sessions, the audit, the consents, the observations, the deliveries, the calls and the
  -- events as they were.
  pub reply-guarded :
      (gcal : String) (u : User) (inbound : String) (now : Time) (s : Store)
      → guarded (reply outside gcal u inbound now s).2 ≡ guarded s
  unfolding reply add_message
  reply-guarded gcal u inbound now s =
      let kept = add_message u.id "user" inbound s in
      elim (Bool-cases (not (onboarded u))) [
        | inl new ↦ rw new (onboarding_turn-guarded (show_when outside) u "sms" inbound now kept)
        | inr introduced ↦ rw introduced (
            handled-guarded (interview_reply u inbound now kept) gcal now
            ∙ interview_reply-guarded u inbound now kept)
      ]
