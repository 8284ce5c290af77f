-- ===== src/Checklist/Answers/Frame.antt =====
-- checklist.go, RecordChecklistAnswer: what it leaves alone.
use running_hackathon.Prelude.{
  ℕ, String, Bool, true, false, not, ◌&&◌, ◌≡◌, refl, ◌∙◌, Option, none, some, arith, inl, inr,
  Bool-cases, str_eq, if◌then◌else◌,
}
use running_hackathon.Clock.{Time}
use running_hackathon.Outcome.{Result, ok, err}
use running_hackathon.Str.{trim_space}
use running_hackathon.Db.{User, ChecklistItem, Store}
use running_hackathon.Guarded.{guarded}
use running_hackathon.Checklist.Template.{status_answered, question_by_key}
use running_hackathon.Checklist.Answers.{
  persist_answer, write_item, commit_answer, settle_next, is_terminal, record_checklist_answer,
  next_checklist_item,
}

persist-guarded :
    (field answer : String) (u : User) (s : Store)
    → guarded (persist_answer field answer u s).2 ≡ guarded s
unfolding persist_answer
persist-guarded field answer u s = ground arith

commit-guarded :
    (r : Result (Unit {0}) × User × Store) (item : ChecklistItem) (s : Store)
    → guarded r.2 ≡ guarded s
    → guarded (commit_answer r item s).2 ≡ guarded s
unfolding commit_answer
commit-guarded (ok done, u', s') item s h = h
commit-guarded (err e, u', s') item s h = refl

write_item-guarded :
    (next : ChecklistItem) (u : User) (session_id : ℕ) (status answer : String) (now : Time)
    (s : Store)
    → guarded (write_item next u session_id status answer now s) ≡ guarded s
unfolding write_item
write_item-guarded next u session_id status answer now s = refl

answer_kept :
    (b : Bool) (r : Result (Unit {0}) × User × Store) (u : User) (s t : Store)
    → guarded t ≡ guarded s
    → guarded r.2 ≡ guarded t
    → guarded (if b then (ok tt, u, t) else r).2 ≡ guarded s
answer_kept true r u s t h k = h
answer_kept false r u s t h k = k ∙ h

settle-guarded :
    (o : Option ChecklistItem) (u : User) (session_id : ℕ) (key status answer : String) (now : Time)
    (s : Store)
    → guarded (settle_next o u session_id key status answer now s).2 ≡ guarded s
unfolding settle_next
settle-guarded none u session_id key status answer now s = refl
settle-guarded (some next) u session_id key status answer now s =
    elim (Bool-cases (not (str_eq next.key key))) [
      | inl other ↦ rw other refl
      | inr current ↦
          let written = write_item next u session_id status answer now s in
          rw current (
            commit-guarded _ _ s (
              answer_kept (not (str_eq status status_answered)) _ u s written
                (write_item-guarded next u session_id status answer now s)
                (persist-guarded (question_by_key key).persists answer u written)))
    ]

pub record_answer-guarded :
    (u : User) (session_id : ℕ) (key status answer : String) (now : Time) (s : Store)
    → guarded (record_checklist_answer u session_id key status answer now s).2 ≡ guarded s
unfolding record_checklist_answer
record_answer-guarded u session_id key status answer now s =
    let settled =
      settle-guarded (next_checklist_item u.id session_id s) u session_id key status
        (trim_space answer) now s in
    elim (Bool-cases (not (is_terminal status))) [
      | inl refused ↦ rw refused refl
      | inr usable ↦
          elim (Bool-cases (str_eq status status_answered && str_eq (trim_space answer) "")) [
            | inl empty ↦ rw (usable, empty) refl
            | inr given ↦ rw (usable, given) settled
          ]
    ]
