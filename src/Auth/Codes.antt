-- ===== src/Auth/Codes.antt =====
-- auth.go, the login codes: IssueLoginCode, DiscardLoginCode, ConsumeLoginCode. The random code comes in
-- as an argument, and so does the digest of crypto/sha256.
pub mod Frame
pub mod OneCode
pub mod Guesses
pub mod History
pub mod Slots
use running_hackathon.Prelude.{
  ℕ, zero, ◌+◌, ◌*◌, String, Bool, true, false, ◌&&◌, Option, none, some, List, [], ◌∷◌, leb, ltb,
  ◌==◌, str_eq, if◌then◌else◌, is_some, not,
}
use running_hackathon.Clock.{Time, Duration, minute}
use running_hackathon.Outcome.{
  Result, ok, err, rate_limited, code_invalid, code_expired, code_attempts,
}
use running_hackathon.Sql
use running_hackathon.Db.{LoginCode, Store}

abbrev pub login_code_ttl : Duration
login_code_ttl = 10 * minute

abbrev pub login_code_attempts : ℕ
login_code_attempts = 5

abbrev pub login_code_rate : ℕ
login_code_rate = 3

abbrev pub login_code_window : Duration
login_code_window = 15 * minute

-- WHERE phone=? AND created_at > now - window
unfoldable pub is_recent : String → Time → LoginCode → Bool
is_recent phone now c = str_eq c.phone phone && ltb now (c.created_at + login_code_window)

-- WHERE phone=? AND consumed_at IS NULL
unfoldable pub is_outstanding : String → LoginCode → Bool
is_outstanding phone c = str_eq c.phone phone && not (is_some c.consumed_at)

abbrev pub burn : Time → LoginCode → LoginCode
burn now c = record c { consumed_at = some now }

module _ (hash_secret : String → String) where
  abbrev pub minted : String → String → Time → ℕ → LoginCode
  minted code phone now id = record {
    id = id;
    phone = phone;
    code_hash = hash_secret code;
    attempts = 0;
    created_at = now;
    expires_at = now + login_code_ttl;
    consumed_at = none;
  }

  -- `code` is what newLoginCode drew.
  unfoldable pub issue_login_code : String → String → Time → Store → Result String × Store
  issue_login_code code phone now s =
      if leb login_code_rate (Sql.count (is_recent phone now) s.login_codes.rows)
      then (err rate_limited, s)
      else (
        ok code,
        record s {
          login_codes =
              Sql.insert (minted code phone now)
                (Sql.update (is_outstanding phone) (burn now) s.login_codes);
        },
      )

unfoldable pub discard_login_code : String → Store → Store
discard_login_code phone s = record s {
  login_codes = Sql.delete (is_outstanding phone) s.login_codes;
}

-- ORDER BY created_at DESC, id DESC: of two rows the one inserted later has the greater id.
abbrev pub newer_code : LoginCode → LoginCode → Bool
newer_code s r = leb r.created_at s.created_at

abbrev pub with_id : ℕ → LoginCode → Bool
with_id id c = c.id == id

-- UPDATE login_codes SET consumed_at=? WHERE id=?
burn_code : ℕ → Time → Store → Store
burn_code id now s = record s { login_codes = Sql.update (with_id id) (burn now) s.login_codes }

abbrev pub one_more : LoginCode → LoginCode
one_more c = record c { attempts = c.attempts + 1 }

count_attempt : ℕ → Store → Store
count_attempt id s = record s { login_codes = Sql.update (with_id id) one_more s.login_codes }

abbrev with_id_outstanding : ℕ → LoginCode → Bool
with_id_outstanding id c = (c.id == id) && not (is_some c.consumed_at)

module _ (hash_secret : String → String) where
  -- The checks on the newest outstanding code of the number.
  pub check_code : LoginCode → String → Time → Store → Result (Unit {0}) × Store
  unfolding burn_code count_attempt
  check_code c code now s =
      if ltb c.expires_at now
      then (err code_expired, burn_code c.id now s)
      else if leb login_code_attempts c.attempts
      then (err code_attempts, burn_code c.id now s)
      else if not (str_eq c.code_hash (hash_secret code))
      then (
        err code_invalid,
        (if leb login_code_attempts (c.attempts + 1)
            then burn_code c.id now (count_attempt c.id s)
            else count_attempt c.id s),
      )
      else (
        ok tt,
        record s { login_codes = Sql.update (with_id_outstanding c.id) (burn now) s.login_codes },
      )

  unfoldable pub consume_login_code : String → String → Time → Store → Result (Unit {0}) × Store
  unfolding check_code
  consume_login_code phone code now s =
      elim (Sql.top newer_code (is_outstanding phone) s.login_codes.rows) [
        | none ↦ (err code_invalid, s)
        | some c ↦ check_code c code now s
      ]
