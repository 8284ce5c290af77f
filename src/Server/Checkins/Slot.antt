-- ===== src/Server/Checkins/Slot.antt =====
-- server.go, placeCall: the slot of the live call.
use running_hackathon.Prelude.{
  ℕ, ◌+◌, ◌≤◌, String, Bool, true, false, ◌≡◌, refl, ap, ◌∙◌, Option, none, some, List, [], ◌∷◌,
  arith, ◌==◌, All, if◌then◌else◌,
}
use running_hackathon.Clock.{Time}
use running_hackathon.Outcome.{Result, ok, err}
use running_hackathon.Sql
use running_hackathon.Sql.{Table}
use running_hackathon.Sql.Laws.{count-update_eq, count_mono}
use running_hackathon.Outside.{Outside}
use running_hackathon.Db.{User, Session, Store}
use running_hackathon.Checklist.Template.{onboarded, flow_for}
use running_hackathon.Checklist.Sessions.{ensure_session}
use running_hackathon.Checklist.Sessions.Frame.{ensure_session-users}
use running_hackathon.Users.{has_id, set_user, set_call_sid}
use running_hackathon.Users.Calls.{
  call_max_duration, is_free, is_stale, start_call, end_call, WithinFrom, free_from, claim_step,
  start_call-end_call,
}
use running_hackathon.VoiceContext.{dynamic_variables}
use running_hackathon.Server.State.{ServerState}
use running_hackathon.Server.Checkins.{
  Opening, opened, call_in_place, unreachable, items_of, caller_context, with_store, answered,
  ring_up, claimed, place_call,
}

items-users : (r : Result Session × Store) (u : User) → (items_of r u).1.users ≡ r.1.users
unfolding items_of
items-users (err e, s) u = refl
items-users (ok sess, s) u = refl

context-users : (u : User) (now : Time) (s : Store) → (caller_context u now s).1.users ≡ s.users
unfolding caller_context
context-users u now s =
    items-users (ensure_session (some u) "call" (flow_for (some u)) now s) u
    ∙ ensure_session-users (some u) "call" (flow_for (some u)) now s

abbrev pub rows_of : ℕ → Store → ℕ
rows_of id s = Sql.count (has_id id) s.users.rows

rows-set_user :
    (id : ℕ) (f : User → User) (s : Store)
    → ((v : User) → (f v).id ≡ v.id)
    → rows_of id (set_user id f s) ≡ rows_of id s
unfolding Sql.update
rows-set_user id f s h =
    count-update_eq (has_id id) (has_id id) f (λ r e. ap (λ (i : ℕ). i == id) (h r)) s.users.rows

rows-start_call :
    (id : ℕ) (now : Time) (s : Store) → rows_of id (start_call id now s).1 ≡ rows_of id s
unfolding start_call Sql.update
rows-start_call id now s =
    count-update_eq (has_id id) (is_free id now) (λ u. record u { call_started_at = some now })
      (λ r e. refl) s.users.rows

-- The profile rings: whether the provider took the call.
abbrev pub rings : Opening → ℕ
rings opened = 1
rings call_in_place = 0
rings unreachable = 0

module _ (outside : Outside) where
  answered-free :
      (o : Option String) (u : User) (later : Time) (st : ServerState)
      → rows_of u.id st.store ≡ 1
      → (answered outside o u st).0 ≡ unreachable
      → (start_call u.id later (answered outside o u st).1.store).0 ≡ true
  unfolding answered
  answered-free none u later st one h = start_call-end_call u.id later st.store one
  answered-free (some sid) u later st one h = absurd (cc)

  claimed-free :
      (r : Bool × Store) (u : User) (now later : Time) (st : ServerState)
      → rows_of u.id r.1 ≡ 1
      → (claimed outside r u now st).0 ≡ unreachable
      → (start_call u.id later (claimed outside r u now st).1.store).0 ≡ true
  unfolding claimed ring_up
  claimed-free (false, s) u now later st one h = absurd (cc)
  claimed-free (true, s) u now later st one h =
      answered-free _ u later _
        (ap (λ (t : Table User). Sql.count (has_id u.id) t.rows) (context-users u now s) ∙ one) h

  -- Where the provider is not reached, the slot of a profile with one row is free again: the next attempt to
  -- start a call claims it, at any time.
  pub place_call-unreachable :
      (u : User) (now later : Time) (st : ServerState)
      → rows_of u.id st.store ≡ 1
      → (place_call outside u now st).0 ≡ unreachable
      → (start_call u.id later (place_call outside u now st).1.store).0 ≡ true
  unfolding place_call
  place_call-unreachable u now later st one h =
      claimed-free (start_call u.id now st.store) u now later st
        (rows-start_call u.id now st.store ∙ one) h

  answered-step :
      (o : Option String) (u : User) (from : Time) (st : ServerState)
      → rows_of u.id st.store ≤ 1
      → rings (answered outside o u st).0 + free_from u.id from (answered outside o u st).1.store
        ≤ 1 + free_from u.id from st.store
  unfolding answered set_call_sid end_call Sql.update is_stale
  answered-step none u from st unique = omega (
    arith,
    rows-set_user u.id (λ v. record v { call_started_at = none }) st.store (λ v. refl),
    count_mono (is_free u.id (from + call_max_duration)) (has_id u.id) (λ r k. ground arith)
        (end_call u.id st.store).users.rows,
  )
  answered-step (some sid) u from st unique = omega (
    arith,
    count-update_eq (is_free u.id (from + call_max_duration)) (has_id u.id)
        (λ v. record v { last_call_sid = sid }) (λ r e. refl) st.store.users.rows,
  )

  answered-rows :
      (o : Option String) (u : User) (st : ServerState)
      → rows_of u.id (answered outside o u st).1.store ≡ rows_of u.id st.store
  unfolding answered set_call_sid end_call
  answered-rows none u st =
      rows-set_user u.id (λ v. record v { call_started_at = none }) st.store (λ v. refl)
  answered-rows (some sid) u st =
      rows-set_user u.id (λ v. record v { last_call_sid = sid }) st.store (λ v. refl)

  claimed-step :
      (r : Bool × Store) (u : User) (from now : Time) (st : ServerState) (m : ℕ)
      → rows_of u.id r.1 ≤ 1
      → (if r.0 then 1 else 0) + free_from u.id from r.1 ≤ m
      → rings (claimed outside r u now st).0
          + free_from u.id from (claimed outside r u now st).1.store
        ≤ m
  unfolding claimed ring_up
  claimed-step (false, s) u from now st m unique h = omega arith
  claimed-step (true, s) u from now st m unique h =
      let (context, s') = caller_context u now s in
      let same = context-users u now s in
      omega (
        arith,
        answered-step
            (outside.ring u.phone u.name (onboarded u)
              (dynamic_variables (caller_context u now s).0))
            u from (with_store st (caller_context u now s).1) (rw same unique),
        ap (λ (t : Table User). Sql.count (is_free u.id (from + call_max_duration)) t.rows) same,
      )

  claimed-rows :
      (r : Bool × Store) (u : User) (now : Time) (st : ServerState)
      → rows_of u.id (claimed outside r u now st).1.store ≡ rows_of u.id r.1
  unfolding claimed ring_up
  claimed-rows (false, s) u now st = refl
  claimed-rows (true, s) u now st =
      answered-rows _ u _
      ∙ ap (λ (t : Table User). Sql.count (has_id u.id) t.rows) (context-users u now s)

  -- The calls that the provider takes, of attempts that come one after the other with nothing between them.
  pub calls_placed : User → List Time → ServerState → ℕ
  calls_placed u [] st = 0
  calls_placed u (now ∷ times) st =
      let placed = place_call outside u now st in rings placed.0 + calls_placed u times placed.1

  placed-le-free :
      (u : User) (from : Time) (times : List Time) (st : ServerState)
      → rows_of u.id st.store ≤ 1
      → All (WithinFrom from) times
      → calls_placed u times st ≤ free_from u.id from st.store
  unfolding calls_placed place_call
  placed-le-free u from [] st unique h = omega arith
  placed-le-free u from (now ∷ times) st unique (h, hs) =
      let r = start_call u.id now st.store in
      let few : rows_of u.id (start_call u.id now st.store).1 ≤ 1 =
        rw (rows-start_call u.id now st.store) unique in
      omega (
        arith,
        claimed-step r u from now st _ few (claim_step u.id from now st.store h),
        placed-le-free u from times (claimed outside r u now st).1
            (rw (claimed-rows r u now st) few) hs,
      )

  -- Of attempts to call one profile that follow one another inside ten minutes, with nothing else between
  -- them, so that no hang-up and no transcript ends a call, at most one makes the phone ring, whatever the
  -- provider answers to each, if the profile has one row at most.
  pub calls_placed-le-one :
      (u : User) (from : Time) (times : List Time) (st : ServerState)
      → rows_of u.id st.store ≤ 1
      → All (WithinFrom from) times
      → calls_placed u times st ≤ 1
  calls_placed-le-one u from times st unique h = omega (
    arith,
    placed-le-free u from times st unique h,
    count_mono (is_free u.id (from + call_max_duration)) (has_id u.id) (λ r k. ground arith)
        st.store.users.rows,
  )
