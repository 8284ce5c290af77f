-- ===== src/Checklist/Answers.antt =====
-- checklist.go, the answers: Settled, Checklist, NextChecklistItem, SetItemPrompt, MarkAsked,
-- RecordChecklistAnswer, ChecklistAnswer.
pub mod Frame
pub mod Written
pub mod Current
pub mod Refused
pub mod Progress
use running_hackathon.Prelude.{
  ℕ, String, Bool, true, false, not, ◌&&◌, ◌||◌, Option, none, some, List, [], ◌∷◌, ltb, leb, ◌==◌,
  str_eq, if◌then◌else◌, is_some, coalesce,
}
use running_hackathon.Clock.{Time}
use running_hackathon.Outcome.{Result, ok, err, message, not_current_item, unusable_answer}
use running_hackathon.Sql
use running_hackathon.Db.{User, ChecklistItem, Store}
use running_hackathon.Str.{trim_space}
use running_hackathon.Interests.{normalise_interests}
use running_hackathon.Checklist.Template.{
  status_unanswered, status_answered, status_skipped, status_declined, question_by_key,
}
use running_hackathon.Checklist.Replies.{normalise_name, normalise_frequency}
use running_hackathon.Checklist.Sessions.{source_conversation, not_after, answered_later}

-- ChecklistItem.Settled
unfoldable pub is_settled : ChecklistItem → Bool
is_settled c = not (str_eq c.status status_unanswered)

abbrev pub of_session : ℕ → ℕ → ChecklistItem → Bool
of_session user_id session_id c = (c.user_id == user_id) && (c.session_id == session_id)

abbrev pub earlier : ChecklistItem → ChecklistItem → Bool
earlier r s = ltb r.position s.position

-- ORDER BY position ASC
unfoldable pub checklist : ℕ → ℕ → Store → List ChecklistItem
checklist user_id session_id s =
    Sql.order_by earlier (Sql.select (of_session user_id session_id) s.checklist_items.rows)

abbrev pub is_open : ChecklistItem → Bool
is_open c = not (is_settled c)

unfoldable pub next_checklist_item : ℕ → ℕ → Store → Option ChecklistItem
unfolding is_settled
next_checklist_item user_id session_id s = Sql.first is_open (checklist user_id session_id s)

abbrev pub is_item_of : ℕ → ℕ → ChecklistItem → Bool
is_item_of user_id item_id c = (c.id == item_id) && (c.user_id == user_id)

unfoldable pub set_item_prompt : ℕ → ℕ → String → Store → Store
set_item_prompt user_id item_id prompt s = record s {
  checklist_items =
      Sql.update (is_item_of user_id item_id) (λ c. record c { prompt = prompt }) s.checklist_items;
}

unfoldable pub mark_asked : ℕ → ℕ → Time → Store → Store
mark_asked user_id item_id now s = record s {
  checklist_items =
      Sql.update (is_item_of user_id item_id)
        (λ c. record c { asked_at = coalesce c.asked_at (some now) }) s.checklist_items;
}

-- UPDATE users SET … WHERE id=?
abbrev pub set_user : ℕ → (User → User) → Store → Store
set_user id f s = record s { users = Sql.update (λ u. u.id == id) f s.users }

-- What an answer writes to the profile: the outcome, the profile in memory, which is assigned on the way, and
-- the store.
unfoldable pub persist_answer : String → String → User → Store → Result (Unit {0}) × User × Store
persist_answer field answer u s =
    if str_eq field "interests"
    then (if str_eq (normalise_interests answer) "" then (err unusable_answer, u, s) else (
      ok tt,
      record u { interests = normalise_interests answer },
      set_user u.id (λ r. record r { interests = normalise_interests answer }) s,
    ))
    else if str_eq field "name"
    then (if str_eq (normalise_name answer) "" then (err unusable_answer, u, s) else (
      ok tt,
      record u { name = normalise_name answer },
      set_user u.id (λ r. record r { name = normalise_name answer }) s,
    ))
    else if str_eq field "frequency"
    then (if str_eq (normalise_frequency answer) "" then (ok tt, u, s) else (
      ok tt,
      record u { frequency = normalise_frequency answer },
      set_user u.id (λ r. record r { frequency = normalise_frequency answer }) s,
    ))
    else (ok tt, u, s)

-- WHERE id=? AND user_id=? AND session_id=?
abbrev pub is_row : ℕ → ℕ → ℕ → ChecklistItem → Bool
is_row id user_id session_id c =
    (c.id == id) && ((c.user_id == user_id) && (c.session_id == session_id))

abbrev pub settle : String → String → Time → ChecklistItem → ChecklistItem
settle status answer now c = record c {
  status = status;
  answer = answer;
  source = source_conversation;
  answered_at = some now;
}

pub write_item : ChecklistItem → User → ℕ → String → String → Time → Store → Store
write_item next u session_id status answer now s = record s {
  checklist_items =
      Sql.update (is_row next.id u.id session_id) (settle status answer now) s.checklist_items;
}

-- The transaction: an error rolls the tables back to the store before it, and takes back nothing that was
-- assigned to the profile in memory.
commit_answer :
    Result (Unit {0}) × User × Store → ChecklistItem → Store → Result ChecklistItem × User × Store
commit_answer (ok done, u', s') item before = (ok item, u', s')
commit_answer (err e, u', s') item before = (err e, u', before)

pub settle_next :
    Option ChecklistItem
    → User
    → ℕ
    → String
    → String
    → String
    → Time
    → Store
    → Result ChecklistItem × User × Store
unfolding write_item commit_answer
settle_next none u session_id key status answer now s = (err not_current_item, u, s)
settle_next (some next) u session_id key status answer now s =
    if not (str_eq next.key key)
    then (err not_current_item, u, s)
    else commit_answer
        (if not (str_eq status status_answered)
          then (ok tt, u, write_item next u session_id status answer now s)
          else persist_answer (question_by_key key).persists answer u
              (write_item next u session_id status answer now s))
        (settle status answer now next) s

abbrev pub is_terminal : String → Bool
is_terminal status =
    str_eq status status_answered || str_eq status status_skipped || str_eq status status_declined

-- The item as it was settled, the profile in memory, and the store.
unfoldable pub record_checklist_answer :
    User → ℕ → String → String → String → Time → Store → Result ChecklistItem × User × Store
unfolding settle_next
record_checklist_answer u session_id key status answer now s =
    if not (is_terminal status)
    then (err (message "status must be answered, skipped or declined"), u, s)
    else if str_eq status status_answered && str_eq (trim_space answer) ""
    then (err (message "an answered item needs the user's actual answer"), u, s)
    else settle_next (next_checklist_item u.id session_id s) u session_id key status
        (trim_space answer) now s

abbrev is_answered : ℕ → String → ChecklistItem → Bool
is_answered user_id key c =
    (c.user_id == user_id) && str_eq c.key key && str_eq c.status status_answered

unfoldable pub checklist_answer : ℕ → String → Store → Option String
checklist_answer user_id key s =
    elim (Sql.top answered_later (is_answered user_id key) s.checklist_items.rows) [
      | none ↦ none
      | some c ↦ some c.answer
    ]
