-- ===== src/Users/Calls.antt =====
-- db.go, the live call: CallInProgress, StartCall, EndCall. The UPDATE of StartCall is the lock on the
-- profile's call.
use running_hackathon.Prelude.{
  ℕ, ◌+◌, ◌*◌, ◌≤◌, ◌≢◌, Bool, true, false, not, ◌&&◌, ◌≡◌, ◌∙◌, Option-cases, none, some, List, [],
  ◌∷◌, arith, ltb, ◌==◌, if◌then◌else◌, All, inl, inr,
}
use running_hackathon.Clock.{Time, Duration, minute}
use running_hackathon.Sql
use running_hackathon.Sql.Laws.{count-update_all, count-first, count_mono}
use running_hackathon.Sql.Order.{count-update_spend}
use running_hackathon.Db.{User, Store}
use running_hackathon.Users.{has_id, set_user}

abbrev pub call_max_duration : Duration
call_max_duration = 10 * minute

-- User.CallInProgress
unfoldable pub call_in_progress : Time → User → Bool
call_in_progress now u = elim u.call_started_at [
  | none ↦ false
  | some started ↦ ltb now (started + call_max_duration)
]

-- call_started_at IS NULL OR call_started_at < now - max
unfoldable pub is_stale : Time → User → Bool
is_stale now u = elim u.call_started_at [
  | none ↦ true
  | some started ↦ ltb (started + call_max_duration) now
]

abbrev pub is_free : ℕ → Time → User → Bool
is_free id now u = has_id id u && is_stale now u

-- Whether exactly one row was claimed, and the store.
unfoldable pub start_call : ℕ → Time → Store → Bool × Store
unfolding is_stale
start_call id now s = (
  Sql.count (is_free id now) s.users.rows == 1,
  record s {
    users = Sql.update (is_free id now) (λ u. record u { call_started_at = some now }) s.users;
  },
)

unfoldable pub end_call : ℕ → Store → Store
end_call id s = set_user id (λ u. record u { call_started_at = none }) s

-- The attempts that claim the slot, when they come one after the other.
pub claims : ℕ → List Time → Store → ℕ
claims id [] s = 0
claims id (now ∷ times) s =
    let (started, s') = start_call id now s in (if started then 1 else 0) + claims id times s'

abbrev pub WithinFrom : Time → Time → Type 0
WithinFrom from t = (from ≤ t) × (t ≤ from + call_max_duration)

-- Rows of the profile on which an attempt inside the window could still claim the slot.
abbrev pub free_from : ℕ → Time → Store → ℕ
free_from id from s = Sql.count (is_free id (from + call_max_duration)) s.users.rows

pub claim_step :
    (id : ℕ) (from now : Time) (s : Store)
    → WithinFrom from now
    → (if (start_call id now s).0 then 1 else 0) + free_from id from (start_call id now s).1
      ≤ free_from id from s
unfolding start_call is_stale Sql.update
claim_step id from now s (lo, hi) =
    let p = is_free id (from + call_max_duration) in
    let spent =
      count-update_spend p (is_free id now) (λ u. record u { call_started_at = some now })
        (λ r h. late r) s.users.rows in
    let covers =
      count_mono (is_free id now) (λ r. p r && is_free id now r) (λ r h. also_free r h)
        s.users.rows in
    ground (arith, spent, covers)
  where
    late :
        (r : User)
        → (has_id id r && ltb (now + call_max_duration) (from + call_max_duration)) ≡ false
    late r = ground arith

    also_free :
        (r : User)
        → is_free id now r ≡ true
        → (is_free id (from + call_max_duration) r && is_free id now r) ≡ true
    also_free r h = ground arith

claims-le-free :
    (id : ℕ) (from : Time) (times : List Time) (s : Store)
    → All (WithinFrom from) times
    → claims id times s ≤ free_from id from s
unfolding claims
claims-le-free id from [] s h = omega arith
claims-le-free id from (now ∷ times) s (h, hs) =
    omega
      (arith, claim_step id from now s h, claims-le-free id from times (start_call id now s).1 hs)

-- Of all the attempts to start a call with one profile inside ten minutes, in whatever order they
-- come, at most one claims the call, if the id has one row at most and no call is ended between them.
pub claims-le-one :
    (id : ℕ) (from : Time) (times : List Time) (s : Store)
    → Sql.count (has_id id) s.users.rows ≤ 1
    → All (WithinFrom from) times
    → claims id times s ≤ 1
claims-le-one id from times s unique h = omega (
  arith,
  claims-le-free id from times s h,
  count_mono (is_free id (from + call_max_duration)) (has_id id) (λ r k. ground arith) s.users.rows,
)

-- Ending a call frees the slot of a profile with one row: the next attempt claims it, at any time.
pub start_call-end_call :
    (id : ℕ) (now : Time) (s : Store)
    → Sql.count (has_id id) s.users.rows ≡ 1
    → (start_call id now (end_call id s)).0 ≡ true
unfolding start_call end_call Sql.update
start_call-end_call id now s one = ground (
  arith,
  count-update_all (is_free id now) (has_id id) (λ u. record u { call_started_at = none })
      (λ r h. rw h) (λ r h. rw h) s.users.rows,
)

stale-in_progress :
    (now : Time) (u : User)
    → ((t : Time) → u.call_started_at ≡ some t → now ≢ t + call_max_duration)
    → is_stale now u ≡ not (call_in_progress now u)
unfolding is_stale call_in_progress
stale-in_progress now u h = elim (Option-cases u.call_started_at) [
  | inl e ↦ rw e
  | inr (t, e) ↦ rw e (differ t (h t e))
]
  where
    differ :
        (t : Time)
        → now ≢ t + call_max_duration
        → ltb (t + call_max_duration) now ≡ not (ltb now (t + call_max_duration))
    differ t ne = ground arith

-- For a profile with one row, an attempt claims the call exactly when the profile shows no call in
-- progress, at every time but the one instant that is ten minutes after the start of the last call.
pub start_call-in_progress :
    (id : ℕ) (now : Time) (s : Store) (u : User)
    → Sql.count (has_id id) s.users.rows ≤ 1
    → Sql.first (has_id id) s.users.rows ≡ some u
    → ((t : Time) → u.call_started_at ≡ some t → now ≢ t + call_max_duration)
    → (start_call id now s).0 ≡ not (call_in_progress now u)
unfolding start_call
start_call-in_progress id now s u unique found away =
    one_iff (is_stale now u) _ (count-first (has_id id) (is_stale now) s.users.rows u unique found)
    ∙ stale-in_progress now u away
  where
    one_iff : (b : Bool) (n : ℕ) → n ≡ (if b then 1 else 0) → (n == 1) ≡ b
    one_iff b n h = ground arith
