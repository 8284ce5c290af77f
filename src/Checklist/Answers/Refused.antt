-- ===== src/Checklist/Answers/Refused.antt =====
-- RecordChecklistAnswer: an answer that is refused.
use running_hackathon.Prelude.{
  ℕ, String, Bool, true, false, not, ◌&&◌, ◌≡◌, refl, ap, ◌∙◌, Option, none, some, arith, str_eq,
  if◌then◌else◌, Bool-cases, inl, inr,
}
use running_hackathon.Clock.{Time}
use running_hackathon.Outcome.{Error, Result, ok, err}
use running_hackathon.Db.{User, ChecklistItem, Store}
use running_hackathon.Str.{trim_space}
use running_hackathon.Checklist.Template.{status_answered, question_by_key}
use running_hackathon.Checklist.Answers.{
  next_checklist_item, write_item, persist_answer, commit_answer, settle_next,
  record_checklist_answer, is_terminal,
}

persist_error :
    (field answer : String) (u : User) (s : Store) (e : Error)
    → (persist_answer field answer u s).0 ≡ err e
    → (persist_answer field answer u s).1 ≡ u
unfolding persist_answer
persist_error field answer u s e h = ground arith

answered_error :
    (skips : Bool) (r : Result (Unit {0}) × User × Store) (u : User) (s : Store) (e : Error)
    → (r.0 ≡ err e → r.1 ≡ u)
    → (if skips then (ok tt, u, s) else r).0 ≡ err e
    → (if skips then (ok tt, u, s) else r).1 ≡ u
answered_error true r u s e h k = refl
answered_error false r u s e h k = h k

-- The profile of a refused answer is the one that the body of the transaction left in memory.
commit_error :
    (r : Result (Unit {0}) × User × Store) (item : ChecklistItem) (s : Store) (e : Error)
    → (commit_answer r item s).0 ≡ err e
    → (r.0 ≡ err e) × ((commit_answer r item s).1 ≡ r.1) × ((commit_answer r item s).2 ≡ s)
unfolding commit_answer
commit_error (ok done, u', s') item s e h = absurd (cc)
commit_error (err e', u', s') item s e h =
    let same : e' ≡ e = cc in (ap (λ (why : Error). err why) same, refl, refl)

settle_error :
    (o : Option ChecklistItem) (u : User) (session_id : ℕ) (key status answer : String) (now : Time)
    (s : Store) (e : Error)
    → (settle_next o u session_id key status answer now s).0 ≡ err e
    → ((settle_next o u session_id key status answer now s).1 ≡ u)
      × ((settle_next o u session_id key status answer now s).2 ≡ s)
unfolding settle_next
settle_error none u session_id key status answer now s e h = (refl, refl)
settle_error (some next) u session_id key status answer now s e h =
    elim (Bool-cases (str_eq next.key key)) [
      | inr other ↦ rw other (refl, refl)
      | inl same ↦
          let (failed, kept, back) = commit_error _ _ s e (rw same at h) in
          rw same (
            kept
                ∙ answered_error (not (str_eq status status_answered)) _ u _ e
                    (persist_error (question_by_key key).persists answer u
                      (write_item next u session_id status answer now s) e)
                    failed,
            back,
          )
    ]

-- A refused answer leaves the store as it was, and the profile in memory too, to which the transaction assigns
-- as it goes and which no rollback restores: whatever the reason.
pub record_answer_error :
    (u : User) (session_id : ℕ) (key status answer : String) (now : Time) (s : Store) (e : Error)
    → (record_checklist_answer u session_id key status answer now s).0 ≡ err e
    → ((record_checklist_answer u session_id key status answer now s).1 ≡ u)
      × ((record_checklist_answer u session_id key status answer now s).2 ≡ s)
unfolding record_checklist_answer
record_answer_error u session_id key status answer now s e h =
    elim (Bool-cases (is_terminal status)) [
      | inr bad ↦ rw bad (refl, refl)
      | inl good ↦
          rw good
            (elim (Bool-cases (str_eq status status_answered && str_eq (trim_space answer) "")) [
              | inl blank ↦ rw blank (refl, refl)
              | inr given ↦ rw given (
                  settle_error (next_checklist_item u.id session_id s) u session_id key status
                    (trim_space answer) now s e (rw given at (rw good at h)))
            ])
    ]
