-- ===== src/Scheduler/Slots.antt =====
-- A check-in is due in the right hours, and once in each of them.
use mathlib.Core.Path.{subst}
use running_hackathon.Prelude.{
  ℕ, ◌≤◌, Bool, true, false, not, ◌&&◌, ◌≡◌, refl, sym, ◌∙◌, Option, none, some, List, [], ◌∷◌,
  arith, ltb, ◌==◌, ==_iff, str_eq, if◌then◌else◌, Bool-cases, inl, inr, ◌⊎◌,
}
use running_hackathon.Clock.{Time}
use running_hackathon.Db.{User}
use running_hackathon.Checklist.Template.{onboarded}
use running_hackathon.Scheduler.{Calendar, slot_hours, slot_at, in_slot, due_now}

slot_at-hour :
    (now_hour : ℕ) (hours : List ℕ) (slot : Option ℕ) (h : ℕ)
    → ((k : ℕ) → slot ≡ some k → k ≡ now_hour)
    → slot_at now_hour hours slot ≡ some h
    → h ≡ now_hour
unfolding slot_at
slot_at-hour now_hour [] slot h known e = known h e
slot_at-hour now_hour (k ∷ hours) slot h known e =
    slot_at-hour now_hour hours (if now_hour == k then some k else slot) h step e
  where
    step : (j : ℕ) → (if now_hour == k then some k else slot) ≡ some j → j ≡ now_hour
    step j f = elim (Bool-cases (now_hour == k)) [
      | inl e ↦ sym (inside (rw e at f)) ∙ sym ((==_iff now_hour k).0 e)
      | inr e ↦ known j (rw e at f)
    ]
      where
        inside : some k ≡ some j → k ≡ j
        inside g = cc

in_slot-late :
    (slot : Option ℕ) (calendar : Calendar) (now later : Time)
    → ((h : ℕ) → slot ≡ some h → calendar.hour_start later h ≤ now)
    → in_slot slot calendar (some now) later ≡ false
unfolding in_slot
in_slot-late none calendar now later h = refl
in_slot-late (some slot) calendar now later h = done (h slot refl)
  where
    done : calendar.hour_start later slot ≤ now → ltb now (calendar.hour_start later slot) ≡ false
    done k = ground arith

guarded_false :
    (a b c : Bool) → c ≡ false → (if not a then false else if b then false else c) ≡ false
guarded_false a b c h = ground arith

-- Once triggered since the full hour of an instant, a profile is not due at that instant.
pub due_now-triggered :
    (calendar : Calendar) (u : User) (now later : Time)
    → calendar.hour_start later (calendar.hour_of later) ≤ now
    → due_now calendar (record u { last_triggered_at = some now }) later ≡ false
unfolding due_now
due_now-triggered calendar u now later h =
    let late =
      in_slot-late (slot_at (calendar.hour_of later) (slot_hours u.frequency) none) calendar now
        later
        (λ k e.
          subst (λ (j : ℕ). calendar.hour_start later j ≤ now)
            (sym (
              slot_at-hour (calendar.hour_of later) (slot_hours u.frequency) none k
                (λ j f. absurd (cc)) e))
            h) in
    guarded_false (onboarded u) (str_eq u.frequency "weekdays" && calendar.is_weekend later) _ late

-- A profile that is due has been introduced, the hour is nine, or twenty for those who asked for two
-- check-ins a day, and the day is no weekend for those who asked for weekdays.
pub due_now-slot :
    (calendar : Calendar) (u : User) (now : Time)
    → due_now calendar u now ≡ true
    → (onboarded u ≡ true)
      × ((calendar.hour_of now ≡ 9)
          ⊎ ((calendar.hour_of now ≡ 20) × (str_eq u.frequency "twice-daily" ≡ true)))
      × (str_eq u.frequency "weekdays" ≡ true → calendar.is_weekend now ≡ false)
unfolding due_now slot_at in_slot
due_now-slot calendar u now h = (ground arith, hour, weekday)
  where
    hour :
        (calendar.hour_of now ≡ 9)
        ⊎ ((calendar.hour_of now ≡ 20) × (str_eq u.frequency "twice-daily" ≡ true))
    hour = elim (Bool-cases (calendar.hour_of now == 9)) [
      | inl e ↦ inl ((==_iff (calendar.hour_of now) 9).0 e)
      | inr e ↦ inr (ground arith, ground arith)
    ]

    weekday : str_eq u.frequency "weekdays" ≡ true → calendar.is_weekend now ≡ false
    weekday e = ground arith
