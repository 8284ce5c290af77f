-- ===== src/Server/Checkins/Schedule.antt =====
-- scheduler.go, tick: who is left alone, whoever else is due.
use running_hackathon.Prelude.{
  ℕ, String, Bool, true, false, ◌≡◌, ◌≢◌, ◌∙◌, inl, inr, List, [], ◌∷◌, arith, All, Bool-cases,
}
use mathlib.Core.Path.{subst}
use running_hackathon.Clock.{Time}
use running_hackathon.Outside.{Outside}
use running_hackathon.Db.{User, Store}
use running_hackathon.Scheduler.{Calendar, due_now}
use running_hackathon.Activity.{all_users}
use running_hackathon.Server.State.{ServerState}
use running_hackathon.Server.Checkins.{opted_out, tick_user, tick_users, tick}
use running_hackathon.Server.Checkins.Spared.{
  IsSpared, IsSpared-refl, IsSpared-trans, opted_out-same, due-onboarded, trigger-IsSpared,
}

false_and_true : {b : Bool} → b ≡ false → b ≡ true → ⊥
false_and_true h k = ground arith

-- One person has opted out and another has not.
other_person :
    (id : ℕ) (u : User) (s : Store) → opted_out id s ≡ true → opted_out u.id s ≡ false → u.id ≢ id
other_person id u s out willing same =
    false_and_true (subst (λ (i : ℕ). opted_out i s ≡ false) same willing) out

module _ (outside : Outside) (calendar : Calendar) (gcal : String) (now : Time) (id : ℕ)
    (phone : String) where
  tick_user-IsSpared :
      (u : User) (st : ServerState)
      → opted_out id st.store ≡ true
      → (u.id ≢ id → u.phone ≢ phone)
      → IsSpared id phone st (tick_user outside calendar gcal u now st)
  unfolding tick_user
  tick_user-IsSpared u st out apart = elim (Bool-cases (due_now calendar u now)) [
    | inr early ↦ rw early (IsSpared-refl id phone st)
    | inl due ↦ elim (Bool-cases (opted_out u.id st.store)) [
      | inl refused ↦ rw (due, refused) (IsSpared-refl id phone st)
      | inr willing ↦
          let ne = other_person id u st.store out willing in
          rw (due, willing)
            (trigger-IsSpared outside id phone u ne (apart ne) gcal now st
              (due-onboarded outside id phone u ne (apart ne) calendar now due))
    ]
  ]

  tick_users-IsSpared :
      (us : List User) (st : ServerState)
      → opted_out id st.store ≡ true
      → All (λ (v : User). v.id ≢ id → v.phone ≢ phone) us
      → IsSpared id phone st (tick_users outside calendar gcal us now st)
  unfolding tick_users
  tick_users-IsSpared [] st out apart = IsSpared-refl id phone st
  tick_users-IsSpared (u ∷ us) st out (h, hs) =
      let first = tick_user-IsSpared u st out h in
      let st' = tick_user outside calendar gcal u now st in
      IsSpared-trans id phone st st' _ first (
        tick_users-IsSpared us st' (opted_out-same id phone st.store st'.store first.settled ∙ out)
          hs)

  -- Somebody whose last settled answer on check-ins is on file as anything but answered, which is how a
  -- refusal is kept, is neither rung nor texted by a tick of the scheduler, and their profile is not
  -- marked, whoever else is due: where nobody with another id has their number.
  pub tick-opted_out :
      (st : ServerState)
      → opted_out id st.store ≡ true
      → All (λ (v : User). v.id ≢ id → v.phone ≢ phone) (all_users st.store)
      → IsSpared id phone st (tick outside calendar gcal now st)
  unfolding tick
  tick-opted_out st out apart = tick_users-IsSpared (all_users st.store) st out apart
