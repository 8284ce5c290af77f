-- ===== src/Checklist/Answers/Current.antt =====
-- An answer settles the current question and no other.
use running_hackathon.Prelude.{
  ℕ, ◌<◌, String, Bool, true, false, not, ◌&&◌, ◌≡◌, refl, sym, ap, ◌∙◌, Option, none, some, arith,
  str_eq, eq_iff, if◌then◌else◌, All, All-mono, Bool-cases, inl, inr,
}
use mathlib.Core.Path.{subst}
use running_hackathon.Clock.{Time}
use running_hackathon.Outcome.{Error, Result, ok, err}
use running_hackathon.Sql
use running_hackathon.Sql.Order.{IsOrder, Sorted, order_by-Sorted, first-Sorted}
use running_hackathon.Sql.Laws.{first-passes, Stored}
use running_hackathon.Db.{User, ChecklistItem, Store}
use running_hackathon.Str.{trim_space}
use running_hackathon.Checklist.Template.{status_answered, question_by_key}
use running_hackathon.Checklist.Answers.{
  checklist, next_checklist_item, is_open, is_settled, earlier, settle, write_item, persist_answer,
  commit_answer, settle_next, record_checklist_answer, is_terminal, is_row,
}
use running_hackathon.Checklist.Answers.Written.{next-Stored, write-Stored, write-others}

earlier-IsOrder : IsOrder earlier
earlier-IsOrder = record { asym = λ r s h. ground arith; trans = λ r s t h k. ground arith }

-- The current question is unsettled, and every question of the session ahead of it is settled.
pub next_item_first :
    (user_id session_id : ℕ) (s : Store) (c : ChecklistItem)
    → next_checklist_item user_id session_id s ≡ some c
    → (is_settled c ≡ false)
      × All (λ d. d.position < c.position → is_settled d ≡ true) (checklist user_id session_id s)
unfolding next_checklist_item
next_item_first user_id session_id s c h = (
  opened_by c (first-passes is_open (checklist user_id session_id s) c h),
  All-mono (λ d. earlier d c ≡ true → is_open d ≡ false)
      (λ d. d.position < c.position → is_settled d ≡ true)
      (λ d k lt. settled_by d (k (unfold is_settled in ground arith)))
      (checklist user_id session_id s)
      (first-Sorted earlier is_open earlier-IsOrder (checklist user_id session_id s) c
        (in_order user_id session_id s) h),
)
  where
    opened_by : (c : ChecklistItem) → is_open c ≡ true → is_settled c ≡ false
    opened_by c h = ground arith

    settled_by : (c : ChecklistItem) → is_open c ≡ false → is_settled c ≡ true
    settled_by c h = ground arith

    in_order :
        (user_id session_id : ℕ) (s : Store) → Sorted earlier (checklist user_id session_id s)
    in_order user_id session_id s = unfold checklist in order_by-Sorted earlier earlier-IsOrder _

-- What a recorded answer did: it settled the current question, which has the key that was named. Its row was
-- on file and is now the settled one; every other row is as it was.
pub record Settles (u : User) (session_id : ℕ) (key status answer : String) (now : Time) (s : Store)
    (item : ChecklistItem) (u' : User) (s' : Store) : Type 0 where
  pub next : ChecklistItem
  pub current : next_checklist_item u.id session_id s ≡ some next
  pub on_file : Stored next s.checklist_items.rows
  pub named : next.key ≡ key
  pub result : item ≡ record next {
    status = status;
    answer = trim_space answer;
    source = "conversation";
    answered_at = some now;
  }
  pub written : Stored item s'.checklist_items.rows
  pub others :
      Sql.select (λ c. not (is_row next.id u.id session_id c)) s'.checklist_items.rows
      ≡ Sql.select (λ c. not (is_row next.id u.id session_id c)) s.checklist_items.rows
  pub same_user : u'.id ≡ u.id

persist_keeps :
    (field answer : String) (u : User) (s : Store)
    → ((persist_answer field answer u s).2.checklist_items ≡ s.checklist_items)
      × ((persist_answer field answer u s).1.id ≡ u.id)
unfolding persist_answer
persist_keeps field answer u s = ground arith

commit_ok :
    (r : Result (Unit {0}) × User × Store) (item : ChecklistItem) (s : Store) (got : ChecklistItem)
    → (commit_answer r item s).0 ≡ ok got
    → (got ≡ item) × ((commit_answer r item s).1 ≡ r.1) × ((commit_answer r item s).2 ≡ r.2)
unfolding commit_answer
commit_ok (ok done, u', s') item s got h = (cc, refl, refl)
commit_ok (err e, u', s') item s got h = absurd (cc)

written_keeps :
    (answered : Bool) (field answer : String) (u : User) (s : Store)
    → ((if not answered then (ok tt, u, s) else persist_answer field answer u s).2.checklist_items
        ≡ s.checklist_items)
      × ((if not answered then (ok tt, u, s) else persist_answer field answer u s).1.id ≡ u.id)
written_keeps true field answer u s = persist_keeps field answer u s
written_keeps false field answer u s = (refl, refl)

settle_ok :
    (o : Option ChecklistItem) (u : User) (session_id : ℕ) (key status answer : String) (now : Time)
    (s : Store) (item : ChecklistItem)
    → (settle_next o u session_id key status answer now s).0 ≡ ok item
    → (next : ChecklistItem) × (o ≡ some next)
      × (next.key ≡ key)
      × (item ≡ settle status answer now next)
      × ((settle_next o u session_id key status answer now s).2.checklist_items
          ≡ (write_item next u session_id status answer now s).checklist_items)
      × ((settle_next o u session_id key status answer now s).1.id ≡ u.id)
unfolding settle_next
settle_ok none u session_id key status answer now s item h = absurd (cc)
settle_ok (some next) u session_id key status answer now s item h =
    elim (Bool-cases (str_eq next.key key)) [
      | inr other ↦ absurd (ground arith)
      | inl same ↦
          let (got, person, store) = commit_ok _ _ s item (rw same at h) in
          let (items, id) =
            written_keeps (str_eq status status_answered) (question_by_key key).persists answer u
              (write_item next u session_id status answer now s) in
          rw same (
            next,
            refl,
            (eq_iff next.key key).0 same,
            got,
            ap (λ (t : Store). t.checklist_items) store ∙ items,
            ap (λ (v : User). v.id) person ∙ id,
          )
    ]

pub record_reaches :
    (u : User) (session_id : ℕ) (key status answer : String) (now : Time) (s : Store)
    (item : ChecklistItem)
    → (record_checklist_answer u session_id key status answer now s).0 ≡ ok item
    → (is_terminal status ≡ true)
      × (record_checklist_answer u session_id key status answer now s
          ≡ settle_next
              (next_checklist_item u.id session_id s)
              u
              session_id
              key
              status
              (trim_space answer)
              now
              s)
unfolding record_checklist_answer
record_reaches u session_id key status answer now s item h =
    elim (Bool-cases (is_terminal status)) [
      | inr bad ↦ absurd (refused (rw bad at h))
      | inl good ↦
          elim (Bool-cases (str_eq status status_answered && str_eq (trim_space answer) "")) [
            | inl blank ↦ absurd (refused (rw blank at (rw good at h)))
            | inr given ↦ (good, rw (good, given))
          ]
    ]
  where
    refused : {e : Error} → err e ≡ ok item → ⊥
    refused k = cc

-- What a recorded answer makes of the items: the current one is written.
pub record_answer-items :
    (u : User) (session_id : ℕ) (key status answer : String) (now : Time) (s : Store)
    (item : ChecklistItem)
    → (record_checklist_answer u session_id key status answer now s).0 ≡ ok item
    → (next : ChecklistItem) × (next_checklist_item u.id session_id s ≡ some next)
      × (next.key ≡ key)
      × (item ≡ settle status (trim_space answer) now next)
      × ((record_checklist_answer u session_id key status answer now s).2.checklist_items
          ≡ (write_item next u session_id status (trim_space answer) now s).checklist_items)
      × ((record_checklist_answer u session_id key status answer now s).1.id ≡ u.id)
record_answer-items u session_id key status answer now s item h =
    let (_, reached) = record_reaches u session_id key status answer now s item h in
    let (next, current, named, result, items, id) =
      settle_ok (next_checklist_item u.id session_id s) u session_id key status (trim_space answer)
        now s item (subst (λ (r : Result ChecklistItem × User × Store). r.0 ≡ ok item) reached h) in
    (
      next,
      current,
      named,
      result,
      ap (λ (r : Result ChecklistItem × User × Store). r.2.checklist_items) reached ∙ items,
      ap (λ (r : Result ChecklistItem × User × Store). r.1.id) reached ∙ id,
    )

-- Only the current question can be answered: a recorded answer settled the first unsettled question of the
-- session, which has the key that was named, and every question ahead of it was settled before. The row of
-- that question now holds the status, the trimmed answer and the time; the other rows are as they were.
pub record_answer_in_order :
    (u : User) (session_id : ℕ) (key status answer : String) (now : Time) (s : Store)
    (item : ChecklistItem)
    → (record_checklist_answer u session_id key status answer now s).0 ≡ ok item
    → Settles u session_id key status answer now s item
        (record_checklist_answer u session_id key status answer now s).1
        (record_checklist_answer u session_id key status answer now s).2
      × All (λ d. d.position < item.position → is_settled d ≡ true) (checklist u.id session_id s)
record_answer_in_order u session_id key status answer now s item h =
    let (next, current, named, result, items, id) =
      record_answer-items u session_id key status answer now s item h in
    let (_, before) = next_item_first u.id session_id s next current in
    let (on_file, own) = next-Stored u.id session_id s next current in
    (
      record {
        next = next;
        current = current;
        on_file = on_file;
        named = named;
        result = result;
        written =
            subst
              (λ (c : ChecklistItem).
                Stored c
                  (record_checklist_answer u session_id key status answer now
                    s).2.checklist_items.rows)
              (sym result)
              (subst
                (λ (t : Sql.Table ChecklistItem).
                  Stored (settle status (trim_space answer) now next) t.rows)
                (sym items)
                (write-Stored next u session_id status (trim_space answer) now s own on_file));
        others =
            ap
              (λ (t : Sql.Table ChecklistItem).
                Sql.select (λ c. not (is_row next.id u.id session_id c)) t.rows)
              items
            ∙ write-others next u session_id status (trim_space answer) now s;
        same_user = id;
      },
      subst
          (λ (c : ChecklistItem).
            All (λ d. d.position < c.position → is_settled d ≡ true) (checklist u.id session_id s))
          (sym result) before,
    )
