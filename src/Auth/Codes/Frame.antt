-- ===== src/Auth/Codes/Frame.antt =====
-- auth.go: the login codes are all that ConsumeLoginCode and IssueLoginCode write.
use running_hackathon.Prelude.{String, ◌≡◌, refl, arith, inl, inr, Option-cases}
use running_hackathon.Clock.{Time}
use running_hackathon.Sql
use running_hackathon.Db.{LoginCode, Store}
use running_hackathon.Auth.Codes.{
  is_outstanding, newer_code, burn_code, count_attempt, check_code, consume_login_code,
  issue_login_code,
}

module _ (hash_secret : String → String) where
  check-frame :
      (c : LoginCode) (code : String) (now : Time) (s : Store)
      → (check_code hash_secret c code now s).1
        ≡ record s { login_codes = (check_code hash_secret c code now s).1.login_codes }
  unfolding check_code burn_code count_attempt
  check-frame c code now s = ground arith

  pub consume-frame :
      (phone code : String) (now : Time) (s : Store)
      → (consume_login_code hash_secret phone code now s).1
        ≡ record s { login_codes = (consume_login_code hash_secret phone code now s).1.login_codes }
  unfolding consume_login_code
  consume-frame phone code now s =
      elim (Option-cases (Sql.top newer_code (is_outstanding phone) s.login_codes.rows)) [
        | inl nobody ↦ rw (nobody, consume_login_code) refl
        | inr (c, found) ↦ rw (found, consume_login_code) (check-frame c code now s)
      ]

  pub issue-frame :
      (code phone : String) (now : Time) (s : Store)
      → (issue_login_code hash_secret code phone now s).1
        ≡ record s { login_codes = (issue_login_code hash_secret code phone now s).1.login_codes }
  unfolding issue_login_code
  issue-frame code phone now s = ground arith
