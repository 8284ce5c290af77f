-- ===== src/Checklist/Sessions/Others.antt =====
-- checklist.go, EnsureSession: a new session adds no settled answer of anybody else.
use running_hackathon.Prelude.{
  ℕ, suc, String, not, false, ◌≡◌, ◌≢◌, refl, ◌∙◌, Option, none, some, List, [], ◌∷◌, arith, inl,
  inr, Bool-cases, ◌==◌,
}
use running_hackathon.Clock.{Time}
use running_hackathon.Sql
use running_hackathon.Sql.{Table}
use running_hackathon.Sql.Laws.{top-append_other}
use running_hackathon.Db.{User, Session, ChecklistItem, Store}
use running_hackathon.Checklist.Template.{ChecklistQuestion, template_for}
use running_hackathon.Checklist.Sessions.{
  CarriedState, item_of, carry_forward, insert_items, create_session, resume_or_create, ensure_for,
  ensure_session, is_channel, is_flow, newer_session, is_open_session, answered_later,
  is_settled_answer, last_settled,
}

module _ (id : ℕ) (key : String) where
  foreign_item :
      (u : User) (session_id position : ℕ) (q : ChecklistQuestion) (p : CarriedState) (now : Time)
      (next : ℕ)
      → u.id ≢ id
      → is_settled_answer id key (item_of u.id session_id position q p now next) ≡ false
  unfolding is_settled_answer
  foreign_item u session_id position q p now next ne = ground arith

  insert_items-others :
      (session_id : ℕ) (u : User) (now : Time) (before : Store) (qs : List ChecklistQuestion)
      (position : ℕ) (items : Table ChecklistItem)
      → u.id ≢ id
      → Sql.top answered_later
          (is_settled_answer id key)
          (insert_items session_id u now before qs position items).rows
        ≡ Sql.top answered_later (is_settled_answer id key) items.rows
  unfolding insert_items Sql.insert
  insert_items-others session_id u now before [] position items ne = refl
  insert_items-others session_id u now before (q ∷ qs) position items ne =
      insert_items-others session_id u now before qs (suc position)
        (Sql.insert (item_of u.id session_id position q (carry_forward q u now before) now) items)
        ne
      ∙ top-append_other answered_later (is_settled_answer id key) items.rows
          (item_of u.id session_id position q (carry_forward q u now before) now items.next_id)
          (foreign_item u session_id position q (carry_forward q u now before) now items.next_id ne)

  resume-others :
      (o : Option Session) (u : User) (channel flow : String) (now : Time) (s : Store)
      → u.id ≢ id
      → last_settled id key (resume_or_create o u channel flow now s).1 ≡ last_settled id key s
  unfolding resume_or_create create_session last_settled
  resume-others none u channel flow now s ne =
      insert_items-others s.sessions.next_id u now s (template_for flow) 0 s.checklist_items ne
  resume-others (some sess) u channel flow now s ne = refl

  ensure_for-others :
      (u : User) (channel flow : String) (now : Time) (s : Store)
      → u.id ≢ id
      → last_settled id key (ensure_for u channel flow now s).1 ≡ last_settled id key s
  unfolding ensure_for
  ensure_for-others u channel flow now s ne = elim (Bool-cases (u.id == 0)) [
    | inl nobody ↦ rw nobody refl
    | inr somebody ↦ elim (Bool-cases (not (is_channel channel))) [
      | inl strange ↦ rw (somebody, strange) refl
      | inr usual ↦ elim (Bool-cases (not (is_flow flow))) [
        | inl strange ↦ rw (somebody, usual, strange) refl
        | inr known ↦
            rw (somebody, usual, known)
              (resume-others
                (Sql.top newer_session (is_open_session u.id channel flow) s.sessions.rows) u
                channel flow now s ne)
      ]
    ]
  ]

  -- What anybody else last settled stays as it is.
  pub ensure_session-others :
      (u : User) (channel flow : String) (now : Time) (s : Store)
      → u.id ≢ id
      → last_settled id key (ensure_session (some u) channel flow now s).1 ≡ last_settled id key s
  unfolding ensure_session
  ensure_session-others u channel flow now s ne = ensure_for-others u channel flow now s ne
