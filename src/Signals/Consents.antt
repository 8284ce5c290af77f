-- ===== src/Signals/Consents.antt =====
-- signals.go, the consents: the signal kinds, SetConsent, Consents, HasConsent.
pub mod Decisions
pub mod Scope
use text.Mathlib.Text.{is_lt}
use Prim.Native.String.{compare}
use running_hackathon.Prelude.{
  ℕ, ◌*◌, String, Bool, true, false, not, ◌&&◌, ◌||◌, Option, none, some, List, [], ◌∷◌, ltb, ◌==◌,
  str_eq, if◌then◌else◌, is_some,
}
use running_hackathon.Clock.{Time, Duration, hour, day}
use running_hackathon.Outcome.{Result, ok, err, message}
use running_hackathon.Sql
use running_hackathon.Sql.{Table}
use running_hackathon.Db.{Consent, Store}
use running_hackathon.Str.{◌+s◌}

abbrev pub kind_heart_rate : String
kind_heart_rate = "heart_rate"

abbrev pub kind_location : String
kind_location = "location"

abbrev pub kind_calendar : String
kind_calendar = "calendar"

abbrev pub kind_commitments : String
kind_commitments = "commitments"

-- The map signalTTL: `none` for a missing key.
unfoldable pub signal_ttl : String → Option Duration
signal_ttl kind =
    if str_eq kind kind_heart_rate
    then some (2 * hour)
    else if str_eq kind kind_location
    then some (6 * hour)
    else if str_eq kind kind_calendar
    then some (12 * hour)
    else if str_eq kind kind_commitments
    then some (7 * day)
    else none

unfoldable pub valid_signal_kind : String → Bool
unfolding signal_ttl
valid_signal_kind kind = is_some (signal_ttl kind)

-- Consent.Active
granted_and_not_revoked : Option Time → Option Time → Bool
granted_and_not_revoked none revoked = false
granted_and_not_revoked (some granted) none = true
granted_and_not_revoked (some granted) (some revoked) = ltb revoked granted

unfoldable pub is_active : Consent → Bool
unfolding granted_and_not_revoked
is_active c = granted_and_not_revoked c.granted_at c.revoked_at

-- The unique key of the table, and WHERE user_id=? AND scope=?
unfoldable pub is_for : ℕ → String → Consent → Bool
is_for user_id scope c = (c.user_id == user_id) && str_eq c.scope scope

abbrev pub decision : ℕ → String → Bool → String → Time → ℕ → Consent
decision user_id scope granted source now id = record {
  user_id = user_id;
  scope = scope;
  granted_at = if granted then some now else none;
  revoked_at = if granted then none else some now;
  source = source;
}

-- The UPDATE for a grant, and the one for a revocation.
abbrev pub decide : Bool → String → Time → Consent → Consent
decide true source now c = record c { granted_at = some now; revoked_at = none; source = source }
decide false source now c = record c { revoked_at = some now }

unfoldable pub set_consent : ℕ → String → Bool → String → Time → Store → Result (Unit {0}) × Store
unfolding valid_signal_kind
set_consent user_id scope granted source now s =
    if not (valid_signal_kind scope)
    then (err (message ("unknown consent scope " +s scope)), s)
    else (
      ok tt,
      record s {
        consents = Sql.update (is_for user_id scope) (decide granted source now) (
            Sql.insert_ignore (is_for user_id scope) (decision user_id scope granted source now)
              s.consents);
      },
    )

abbrev pub scope_before : Consent → Consent → Bool
scope_before a b = is_lt (compare a.scope b.scope)

-- ORDER BY scope
unfoldable pub consents : ℕ → Store → List Consent
consents user_id s =
    Sql.order_by scope_before (Sql.select (λ (c : Consent). c.user_id == user_id) s.consents.rows)

-- The loop returns at the first consent with the scope.
unfoldable pub has_consent : ℕ → String → Store → Bool
has_consent user_id scope s =
    elim (Sql.first (λ (c : Consent). str_eq c.scope scope) (consents user_id s)) [
      | none ↦ false
      | some c ↦ is_active c
    ]
