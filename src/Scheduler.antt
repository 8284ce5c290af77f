-- ===== src/Scheduler.antt =====
-- scheduler.go: when a check-in is due. The calendar of Europe/London is a parameter: the hour of an instant,
-- whether its day is on a weekend, and the instant of a full hour on its day.
pub mod Slots
use running_hackathon.Prelude.{
  ℕ, String, Bool, true, false, not, ◌&&◌, Option, none, some, List, [], ◌∷◌, ltb, ◌==◌, str_eq,
  if◌then◌else◌,
}
use running_hackathon.Clock.{Time}
use running_hackathon.Db.{User}
use running_hackathon.Checklist.Template.{onboarded}

pub record Calendar : Type 0 where
  pub hour_of : Time → ℕ
  pub is_weekend : Time → Bool
  pub hour_start : Time → ℕ → Time

abbrev pub slot_hours : String → List ℕ
slot_hours frequency = if str_eq frequency "twice-daily" then 9 ∷ 20 ∷ [] else 9 ∷ []

-- The loop over the hours: the last hour that matches, where Go starts from -1.
unfoldable pub slot_at : ℕ → List ℕ → Option ℕ → Option ℕ
slot_at now_hour [] slot = slot
slot_at now_hour (h ∷ hours) slot = slot_at now_hour hours (if now_hour == h then some h else slot)

in_slot : Option ℕ → Calendar → Option Time → Time → Bool
in_slot none calendar last now = false
in_slot (some slot) calendar none now = true
in_slot (some slot) calendar (some last) now = ltb last (calendar.hour_start now slot)

unfoldable pub due_now : Calendar → User → Time → Bool
unfolding in_slot
due_now calendar u now =
    if not (onboarded u)
    then false
    else if str_eq u.frequency "weekdays" && calendar.is_weekend now
    then false
    else in_slot (slot_at (calendar.hour_of now) (slot_hours u.frequency) none) calendar
        u.last_triggered_at now
