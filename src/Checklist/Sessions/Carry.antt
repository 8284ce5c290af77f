-- ===== src/Checklist/Sessions/Carry.antt =====
-- What a new session takes over from earlier ones.
use running_hackathon.Prelude.{◌+◌, false, ◌≡◌, ◌<◌, ◌≤◌, ◌≢◌, ◌⊎◌}
use running_hackathon.Clock.{Time}
use running_hackathon.Sql.Laws.{Stored}
use running_hackathon.Db.{User, ChecklistItem, Store}
use running_hackathon.Checklist.Template.{ChecklistQuestion, status_answered, status_declined}
use running_hackathon.Checklist.Sessions.{
  CarriedState, asked_afresh, source_profile, known_on_profile, time_or_zero,
}

-- The answer comes from the profile.
pub record FromProfile (q : ChecklistQuestion) (u : User) (p : CarriedState) : Type 0 where
  pub carries : q.per_session ≡ false
  pub known : known_on_profile q u ≢ ""
  pub answered : p.status ≡ status_answered
  pub answer : p.answer ≡ known_on_profile q u
  pub source : p.source ≡ source_profile

-- The status and the answer are those of a row that is on file: of this person and this question, declined or
-- answered by a text, and no older than answers to the question are kept.
pub record FromRow (q : ChecklistQuestion) (u : User) (now : Time) (s : Store) (p : CarriedState)
    : Type 0 where
  pub carries : q.per_session ≡ false
  pub row : ChecklistItem
  pub on_file : Stored row s.checklist_items.rows
  pub owner : row.user_id ≡ u.id
  pub question : row.key ≡ q.key
  pub settled :
      (row.status ≡ status_declined) ⊎ ((row.status ≡ status_answered) × (row.answer ≢ ""))
  pub fresh : 0 < q.ttl → now ≤ time_or_zero row.answered_at + q.ttl
  pub status : p.status ≡ row.status
  pub answer : p.answer ≡ row.answer

-- A question starts a session afresh, or with the answer on the profile, or as it was last settled.
abbrev pub StartsSound : ChecklistQuestion → User → Time → Store → CarriedState → Type 0
StartsSound q u now s p = (p ≡ asked_afresh) ⊎ FromProfile q u p ⊎ FromRow q u now s p
