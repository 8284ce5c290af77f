-- ===== src/Checklist/Answers/Progress.antt =====
-- The interview ends: each recorded answer leaves fewer questions, so no session takes more answers than it
-- has questions.
use mathlib.Core.Path.{subst}
use running_hackathon.Prelude.{
  ℕ, ◌+◌, ◌<◌, ◌≤◌, String, Bool, true, false, not, ◌&&◌, ◌≡◌, sym, some, List, [], ◌∷◌, arith,
  str_eq, eq_iff, if◌then◌else◌, Bool-cases, inl, inr,
}
use running_hackathon.Clock.{Time}
use running_hackathon.Outcome.{ok, is_ok, Result-cases}
use running_hackathon.Sql
use running_hackathon.Sql.Order.{All-order_by, count-update_spend}
use running_hackathon.Sql.Laws.{first-All, first-passes, All-select, All-of_count-zero}
use running_hackathon.Db.{User, ChecklistItem, Store}
use running_hackathon.Str.{trim_space}
use running_hackathon.Checklist.Template.{status_unanswered}
use running_hackathon.Checklist.Answers.{
  checklist, next_checklist_item, is_open, is_settled, of_session, is_row, settle, write_item,
  record_checklist_answer, is_terminal,
}
use running_hackathon.Checklist.Answers.Current.{record_answer-items, record_reaches}
use running_hackathon.Checklist.Answers.Refused.{record_answer_error}

false-ne-true : ◌≡◌ {A = Bool} false true → ⊥
false-ne-true e = cc

and-false : (b : Bool) → (b && not (not false)) ≡ false
and-false b = ground arith

-- The unsettled questions of a session.
abbrev unsettled_in : ℕ → ℕ → ChecklistItem → Bool
unsettled_in user_id session_id c = of_session user_id session_id c && is_open c

abbrev pub unsettled : ℕ → ℕ → Store → ℕ
unsettled user_id session_id s = Sql.count (unsettled_in user_id session_id) s.checklist_items.rows

-- The row that the current question is kept in is written.
written :
    (user_id session_id : ℕ) (s : Store) (c : ChecklistItem)
    → next_checklist_item user_id session_id s ≡ some c
    → Sql.count
        (λ r. unsettled_in user_id session_id r && is_row c.id user_id session_id r)
        s.checklist_items.rows
      ≡ 0
    → ⊥
unfolding next_checklist_item checklist
written user_id session_id s c h zero_left =
    let fails = λ (r : ChecklistItem).
      unsettled_in user_id session_id r && is_row c.id user_id session_id r in
    let none_passes = All-of_count-zero fails s.checklist_items.rows zero_left in
    let picked =
      All-select (λ r. fails r ≡ false) (of_session user_id session_id) s.checklist_items.rows
        none_passes in
    let (fail, own) =
      first-All (λ r. (fails r ≡ false) × (of_session user_id session_id r ≡ true)) is_open _ c
        (All-order_by (λ r. (fails r ≡ false) × (of_session user_id session_id r ≡ true)) _ _
          picked)
        h in
    contradiction user_id session_id c fail own (first-passes is_open _ c h)
  where
    contradiction :
        (user_id session_id : ℕ) (c : ChecklistItem)
        → (unsettled_in user_id session_id c && is_row c.id user_id session_id c) ≡ false
        → of_session user_id session_id c ≡ true
        → is_open c ≡ true
        → ⊥
    contradiction user_id session_id c a b e = ground arith

terminal_is_settled :
    (status : String) → is_terminal status ≡ true → str_eq status status_unanswered ≡ false
terminal_is_settled status h = elim (Bool-cases (str_eq status status_unanswered)) [
  | inr no_match ↦ no_match
  | inl same ↦ absurd (
      false-ne-true
        (subst (λ (t : String). is_terminal t ≡ true) ((eq_iff status status_unanswered).0 same) h))
]

spends :
    (user_id session_id : ℕ) (status answer : String) (now : Time) (r : ChecklistItem)
    → is_terminal status ≡ true
    → unsettled_in user_id session_id (settle status answer now r) ≡ false
unfolding is_settled
spends user_id session_id status answer now r h = rw (terminal_is_settled status h) (and-false _)

write-lt :
    (u : User) (session_id : ℕ) (status answer : String) (now : Time) (s : Store)
    (c : ChecklistItem)
    → is_terminal status ≡ true
    → next_checklist_item u.id session_id s ≡ some c
    → unsettled u.id session_id (write_item c u session_id status answer now s)
      < unsettled u.id session_id s
write-lt u session_id status answer now s c h current =
    unfold write_item Sql.update in
    omega (
      arith,
      count-update_spend (unsettled_in u.id session_id) (is_row c.id u.id session_id)
          (settle status answer now) (λ r _. spends u.id session_id status answer now r h)
          s.checklist_items.rows,
      λ (e : Sql.count (λ r. unsettled_in u.id session_id r && is_row c.id u.id session_id r)
              s.checklist_items.rows
            ≡ 0).
          written u.id session_id s c current e,
    )

-- A recorded answer leaves strictly fewer unsettled questions in the session.
pub unsettled-record_lt :
    (u : User) (session_id : ℕ) (key status answer : String) (now : Time) (s : Store)
    (item : ChecklistItem)
    → (record_checklist_answer u session_id key status answer now s).0 ≡ ok item
    → unsettled u.id session_id (record_checklist_answer u session_id key status answer now s).2
      < unsettled u.id session_id s
unsettled-record_lt u session_id key status answer now s item h =
    let (terminal, _) = record_reaches u session_id key status answer now s item h in
    let (next, current, _, _, items, _) =
      record_answer-items u session_id key status answer now s item h in
    subst
      (λ (t : Sql.Table ChecklistItem).
        Sql.count (unsettled_in u.id session_id) t.rows < unsettled u.id session_id s)
      (sym items) (write-lt u session_id status (trim_space answer) now s next terminal current)

-- An answer as a caller sends it: the key, the status and the text, and the time.
pub record Reply : Type 0 where
  pub key : String
  pub status : String
  pub answer : String
  pub at : Time

-- How many of the replies are recorded, when each is sent to the session in turn.
pub recorded : List Reply → User → ℕ → Store → ℕ
recorded [] u session_id s = 0
recorded (r ∷ rs) u session_id s =
    let (got, u', s') = record_checklist_answer u session_id r.key r.status r.answer r.at s in
    (if is_ok got then 1 else 0) + recorded rs u' session_id s'

answer_step :
    (u : User) (session_id : ℕ) (key status answer : String) (now : Time) (s : Store)
    → (if is_ok (record_checklist_answer u session_id key status answer now s).0 then 1 else 0)
        + unsettled
            (record_checklist_answer u session_id key status answer now s).1.id
            session_id
            (record_checklist_answer u session_id key status answer now s).2
      ≤ unsettled u.id session_id s
answer_step u session_id key status answer now s =
    elim (Result-cases (record_checklist_answer u session_id key status answer now s).0) [
      | inl (item, e) ↦
          let (_, _, _, _, _, same_user) =
            record_answer-items u session_id key status answer now s item e in
          rw (e, same_user)
            (omega (arith, unsettled-record_lt u session_id key status answer now s item e))
      | inr (why, e) ↦
          let (same_user, same_store) =
            record_answer_error u session_id key status answer now s why e in
          rw (e, same_user, same_store) (omega arith)
    ]

-- Whatever is sent to a session, it takes at most as many answers as it has unsettled questions.
pub recorded-le :
    (rs : List Reply) (u : User) (session_id : ℕ) (s : Store)
    → recorded rs u session_id s ≤ unsettled u.id session_id s
unfolding recorded
recorded-le [] u session_id s = omega arith
recorded-le (r ∷ rs) u session_id s =
    let after = record_checklist_answer u session_id r.key r.status r.answer r.at s in
    omega (
      arith,
      answer_step u session_id r.key r.status r.answer r.at s,
      recorded-le rs after.1 session_id after.2,
    )
