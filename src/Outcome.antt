-- ===== src/Outcome.antt =====
-- Go's pair of a value and an error: exactly one of the two.
use running_hackathon.Prelude.{◌≡◌, refl, ◌⊎◌, inl, inr, String, Bool, true, false}

-- The sentinel errors of the program; `message` is an errors.New written in place.
pub data Error : Type 0 where
  rate_limited code_invalid code_expired code_attempts no_session : Error
  no_match no_consent not_current_item unusable_answer no_rows call_running : Error
  message : String → Error

-- Error()
abbrev pub error_text : Error → String
error_text rate_limited = "too many codes requested for this number"
error_text code_invalid = "that code is not right"
error_text code_expired = "that code has expired"
error_text code_attempts = "too many attempts on this code"
error_text no_session = "not signed in"
error_text no_match = "no confident event match"
error_text no_consent = "no active consent for this signal"
error_text not_current_item = "that is not the question currently on the table"
error_text unusable_answer = "that reply did not contain a usable answer"
error_text no_rows = "sql: no rows in result set"
error_text call_running = "a call to this number is already in progress"
error_text (message m) = m

pub data Result {ℓ} (A : Type ℓ) : Type ℓ where
  ok : A → Result A
  err : Error → Result A

abbrev pub is_ok {ℓ} : {A : Type ℓ} → Result A → Bool
is_ok (ok a) = true
is_ok (err e) = false

pub Result-cases {ℓ} :
    {A : Type ℓ} (r : Result A) → ((a : A) × (r ≡ ok a)) ⊎ ((e : Error) × (r ≡ err e))
Result-cases (ok a) = inl (a, refl)
Result-cases (err e) = inr (e, refl)
