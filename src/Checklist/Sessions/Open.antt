-- ===== src/Checklist/Sessions/Open.antt =====
-- Opening a session: once, and with the whole template in its order.
use running_hackathon.Prelude.{
  ℕ, suc, ◌+◌, String, true, ◌≡◌, refl, sym, ap, ◌∙◌, inl, inr, some, List, [], ◌∷◌, ◌++◌, map,
  arith, ◌==◌, eq_refl, Bool-cases, Option-cases,
}
use mathlib.Core.Path.{subst}
use mathlib.Core.List.{append_assoc, append-nil}
use running_hackathon.Clock.{Time}
use running_hackathon.Outcome.{Error, Result, ok, err}
use running_hackathon.Sql
use running_hackathon.Sql.{Table}
use running_hackathon.Sql.Laws.{top-last, none_of_top, select-append, select-none}
use running_hackathon.Db.{User, Session, ChecklistItem, Store}
use running_hackathon.Checklist.Answers.{of_session, earlier, checklist}
use running_hackathon.Checklist.Template.{ChecklistQuestion, template_for}
use running_hackathon.Checklist.Sessions.{
  carry_forward, item_of, insert_items, is_channel, is_flow, is_open_session, newer_session, opened,
  create_session, resume_or_create, ensure_for, ensure_session, state_open,
}

ok_some : {a b : Session} → ok a ≡ ok b → some a ≡ some b
ok_some e = cc

opened_is_open :
    (user_id : ℕ) (channel flow : String) (now : Time) (id : ℕ)
    → is_open_session user_id channel flow (opened user_id channel flow now id) ≡ true
unfolding is_open_session
opened_is_open user_id channel flow now id =
    ground (arith, eq_refl channel, eq_refl flow, eq_refl state_open)

-- After a session is returned, the same lookup finds it.
resume_finds :
    (u : User) (channel flow : String) (now : Time) (s : Store) (sess : Session)
    → (resume_or_create
        (Sql.top newer_session (is_open_session u.id channel flow) s.sessions.rows)
        u
        channel
        flow
        now
        s).0
      ≡ ok sess
    → Sql.top newer_session
        (is_open_session u.id channel flow)
        (resume_or_create
          (Sql.top newer_session (is_open_session u.id channel flow) s.sessions.rows)
          u
          channel
          flow
          now
          s).1.sessions.rows
      ≡ some sess
unfolding resume_or_create create_session Sql.insert
resume_finds u channel flow now s sess h =
    elim (Option-cases
      (Sql.top newer_session (is_open_session u.id channel flow) s.sessions.rows)) [
        | inl nobody ↦ rw nobody (
            top-last newer_session (is_open_session u.id channel flow) s.sessions.rows _
              (none_of_top newer_session (is_open_session u.id channel flow) s.sessions.rows nobody)
              (opened_is_open u.id channel flow now s.sessions.next_id)
            ∙ ok_some (rw nobody at h))
        | inr (old, found) ↦ rw (found) (found ∙ ok_some (rw found at h))
      ]

resume_again :
    (u : User) (channel flow : String) (later : Time) (s : Store) (sess : Session)
    → Sql.top newer_session (is_open_session u.id channel flow) s.sessions.rows ≡ some sess
    → resume_or_create
        (Sql.top newer_session (is_open_session u.id channel flow) s.sessions.rows)
        u
        channel
        flow
        later
        s
      ≡ (ok sess, s)
unfolding resume_or_create
resume_again u channel flow later s sess h = rw h

ensure_for_reaches :
    (u : User) (channel flow : String) (now : Time) (s : Store) (sess : Session)
    → (ensure_for u channel flow now s).0 ≡ ok sess
    → (t : Store) (at : Time)
    → ensure_for u channel flow at t
      ≡ resume_or_create
          (Sql.top newer_session (is_open_session u.id channel flow) t.sessions.rows)
          u
          channel
          flow
          at
          t
unfolding ensure_for
ensure_for_reaches u channel flow now s sess h t at = elim (Bool-cases (u.id == 0)) [
  | inl nobody ↦ absurd (refused (rw nobody at h))
  | inr somebody ↦ elim (Bool-cases (is_channel channel)) [
    | inr bad ↦ absurd (refused (rw bad at (rw somebody at h)))
    | inl good ↦ elim (Bool-cases (is_flow flow)) [
      | inr wrong ↦ absurd (refused (rw wrong at (rw good at (rw somebody at h))))
      | inl right ↦ rw (somebody, good, right)
    ]
  ]
]
  where
    refused : {e : Error} → err e ≡ ok sess → ⊥
    refused k = cc

-- A session that was opened is the one that every later request for the same profile, channel and flow
-- gets, as long as nothing else was written: the second call changes nothing.
pub ensure_session_twice :
    (u : User) (channel flow : String) (now later : Time) (s : Store) (sess : Session)
    → (ensure_session (some u) channel flow now s).0 ≡ ok sess
    → ensure_session (some u) channel flow later (ensure_session (some u) channel flow now s).1
      ≡ (ok sess, (ensure_session (some u) channel flow now s).1)
unfolding ensure_session
ensure_session_twice u channel flow now later s sess h =
    let reaches = ensure_for_reaches u channel flow now s sess h in
    let first_call = reaches s now in
    let after = (ensure_for u channel flow now s).1 in
    let found =
      resume_finds u channel flow now s sess
        (subst (λ (r : Result Session × Store). r.0 ≡ ok sess) first_call h) in
    reaches after later
    ∙ resume_again u channel flow later after sess (
        subst
          (λ (r : Result Session × Store).
            Sql.top newer_session (is_open_session u.id channel flow) r.1.sessions.rows ≡ some sess)
          (sym first_call) found)

-- The rows that the template writes, the first at `position` with the key `id`.
made : ℕ → User → Time → Store → List ChecklistQuestion → ℕ → ℕ → List ChecklistItem
made session_id u now before [] position id = []
made session_id u now before (q ∷ qs) position id =
    item_of u.id session_id position q (carry_forward q u now before) now id
    ∷ made session_id u now before qs (suc position) (id + 1)

rows-insert_items :
    (session_id : ℕ) (u : User) (now : Time) (before : Store) (qs : List ChecklistQuestion)
    (position : ℕ) (items : Table ChecklistItem)
    → (insert_items session_id u now before qs position items).rows
      ≡ items.rows ++ made session_id u now before qs position items.next_id
unfolding insert_items made Sql.insert
rows-insert_items session_id u now before [] position items = sym (append-nil items.rows)
rows-insert_items session_id u now before (q ∷ qs) position items =
    rows-insert_items session_id u now before qs (suc position) _ ∙ append_assoc items.rows _ _

select-made :
    (session_id : ℕ) (u : User) (now : Time) (before : Store) (qs : List ChecklistQuestion)
    (position id : ℕ)
    → Sql.select (of_session u.id session_id) (made session_id u now before qs position id)
      ≡ made session_id u now before qs position id
unfolding made Sql.select
select-made session_id u now before [] position id = refl
select-made session_id u now before (q ∷ qs) position id =
    ground (arith, select-made session_id u now before qs (suc position) (id + 1))

order-made :
    (session_id : ℕ) (u : User) (now : Time) (before : Store) (qs : List ChecklistQuestion)
    (position id : ℕ)
    → Sql.order_by earlier (made session_id u now before qs position id)
      ≡ made session_id u now before qs position id
unfolding made Sql.order_by
order-made session_id u now before [] position id = refl
order-made session_id u now before (q ∷ []) position id = refl
order-made session_id u now before (q ∷ r ∷ qs) position id =
    rw (order-made session_id u now before (r ∷ qs) (suc position) (id + 1)) (ground arith)

key-made :
    (session_id : ℕ) (u : User) (now : Time) (before : Store) (qs : List ChecklistQuestion)
    (position id : ℕ)
    → map (λ (c : ChecklistItem). c.key) (made session_id u now before qs position id)
      ≡ map (λ (q : ChecklistQuestion). q.key) qs
unfolding made
key-made session_id u now before [] position id = refl
key-made session_id u now before (q ∷ qs) position id =
    ap (λ ks. q.key ∷ ks) (key-made session_id u now before qs (suc position) (id + 1))

-- A new session has every question of its flow's template, in the template's order: no lookup found an open
-- session, and no row of the table is of a session yet to be made.
pub checklist-create :
    (u : User) (channel flow : String) (now : Time) (s : Store)
    → Sql.count (of_session u.id s.sessions.next_id) s.checklist_items.rows ≡ 0
    → map
        (λ (c : ChecklistItem). c.key)
        (checklist u.id s.sessions.next_id (create_session u channel flow now s).1)
      ≡ map (λ (q : ChecklistQuestion). q.key) (template_for flow)
unfolding checklist create_session
checklist-create u channel flow now s fresh =
    rw
      (
        rows-insert_items s.sessions.next_id u now s (template_for flow) 0 s.checklist_items,
        select-append (of_session u.id s.sessions.next_id) s.checklist_items.rows
            (made s.sessions.next_id u now s (template_for flow) 0 s.checklist_items.next_id),
        select-none (of_session u.id s.sessions.next_id) s.checklist_items.rows fresh,
        select-made s.sessions.next_id u now s (template_for flow) 0 s.checklist_items.next_id,
        order-made s.sessions.next_id u now s (template_for flow) 0 s.checklist_items.next_id,
      )
      (key-made s.sessions.next_id u now s (template_for flow) 0 s.checklist_items.next_id)
