-- ===== src/Checklist/Answers/Written.antt =====
-- The row of the current question: it is on file, and the UPDATE of an answer writes it and no other.
use running_hackathon.Prelude.{ℕ, String, true, not, ◌≡◌, refl, some, arith}
use running_hackathon.Clock.{Time}
use running_hackathon.Sql
use running_hackathon.Sql.Order.{All-order_by}
use running_hackathon.Sql.Laws.{
  first-All, All-select, Stored, All-Stored, update-Stored, select-update_same,
}
use running_hackathon.Db.{User, ChecklistItem, Store}
use running_hackathon.Checklist.Answers.{
  checklist, next_checklist_item, is_open, earlier, settle, write_item, is_row, of_session,
}

pub next-Stored :
    (user_id session_id : ℕ) (s : Store) (c : ChecklistItem)
    → next_checklist_item user_id session_id s ≡ some c
    → Stored c s.checklist_items.rows × (of_session user_id session_id c ≡ true)
unfolding next_checklist_item checklist
next-Stored user_id session_id s c h =
    first-All (λ r. Stored r s.checklist_items.rows × (of_session user_id session_id r ≡ true))
      is_open _ c
      (All-order_by
        (λ r. Stored r s.checklist_items.rows × (of_session user_id session_id r ≡ true)) earlier _
        (All-select (λ r. Stored r s.checklist_items.rows) (of_session user_id session_id)
          s.checklist_items.rows (All-Stored s.checklist_items.rows)))
      h

pub write-Stored :
    (next : ChecklistItem) (u : User) (session_id : ℕ) (status answer : String) (now : Time)
    (s : Store)
    → of_session u.id session_id next ≡ true
    → Stored next s.checklist_items.rows
    → Stored
        (settle status answer now next)
        (write_item next u session_id status answer now s).checklist_items.rows
unfolding write_item Sql.update
write-Stored next u session_id status answer now s own on_file =
    update-Stored (is_row next.id u.id session_id) (settle status answer now) next
      s.checklist_items.rows (ground arith) on_file

pub write-others :
    (next : ChecklistItem) (u : User) (session_id : ℕ) (status answer : String) (now : Time)
    (s : Store)
    → Sql.select
        (λ c. not (is_row next.id u.id session_id c))
        (write_item next u session_id status answer now s).checklist_items.rows
      ≡ Sql.select (λ c. not (is_row next.id u.id session_id c)) s.checklist_items.rows
unfolding write_item Sql.update
write-others next u session_id status answer now s =
    select-update_same (λ c. not (is_row next.id u.id session_id c))
      (is_row next.id u.id session_id) (settle status answer now) (λ r h. rw h refl)
      (λ r h. rw h refl) s.checklist_items.rows
