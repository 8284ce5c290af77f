-- ===== src/Auth/Codes/Slots.antt =====
-- What the rate limit remembers: a failed delivery gives the slot back, a sweep does not.
use running_hackathon.Prelude.{
  ◌+◌, String, true, false, ◌≡◌, refl, arith, leb, Bool-cases, inl, inr, All, All-mono,
}
use running_hackathon.Clock.{Time}
use running_hackathon.Outcome.{ok}
use running_hackathon.Sql
use running_hackathon.Sql.Laws.{count-update_eq, count-delete_same, delete_last}
use running_hackathon.Db.{LoginCode, Store}
use running_hackathon.Auth.Codes.{
  login_code_rate, login_code_ttl, is_recent, is_outstanding, burn, minted, issue_login_code,
  discard_login_code,
}
use running_hackathon.Auth.Codes.OneCode.{none_outstanding_after_burn, minted-is_outstanding}
use running_hackathon.Auth.Codes.History.{recent}
use running_hackathon.Auth.Purge.{is_spent, purge_expired_auth}

module _ (hash_secret : String → String) where
  -- A code that was minted and then discarded because it never reached anybody leaves the rate limit as it
  -- was before the request.
  pub recent-discard_issue :
      (code phone : String) (now at : Time) (s : Store)
      → (issue_login_code hash_secret code phone now s).0 ≡ ok code
      → recent phone at (discard_login_code phone (issue_login_code hash_secret code phone now s).1)
        ≡ recent phone at s
  unfolding issue_login_code discard_login_code Sql.insert Sql.update Sql.delete
  recent-discard_issue code phone now at s h =
      elim (Bool-cases (leb login_code_rate (Sql.count (is_recent phone now) s.login_codes.rows))) [
        | inl e ↦ absurd (ground arith)
        | inr e ↦
            rw
              (
                e,
                delete_last (is_outstanding phone)
                    (Sql.update_rows (is_outstanding phone) (burn now) s.login_codes.rows)
                    (minted hash_secret code phone now s.login_codes.next_id)
                    (none_outstanding_after_burn phone now s.login_codes.rows)
                    (minted-is_outstanding hash_secret code phone now s.login_codes.next_id),
              )
              (count-update_eq (is_recent phone at) (is_outstanding phone) (burn now)
                (λ r k. unfold is_recent in refl) s.login_codes.rows)
      ]

-- Every code expires ten minutes after it was made, as issue_login_code writes it.
pub record HasTtl (c : LoginCode) : Type 0 where
  pub ttl : c.expires_at ≡ c.created_at + login_code_ttl

recent_not_spent :
    (phone : String) (now : Time) (c : LoginCode)
    → HasTtl c
    → is_spent now c ≡ true
    → is_recent phone now c ≡ false
unfolding is_recent
recent_not_spent phone now c h spent = ground arith

-- Where every code expires its time to live after it was created, the sweep deletes no code that the
-- rate limit still counts.
pub recent-sweep :
    (phone : String) (now : Time) (s : Store)
    → All HasTtl s.login_codes.rows
    → recent phone now (purge_expired_auth now s) ≡ recent phone now s
unfolding purge_expired_auth Sql.delete
recent-sweep phone now s h =
    count-delete_same (is_recent phone now) (is_spent now) s.login_codes.rows (
      All-mono HasTtl (λ c. is_spent now c ≡ true → is_recent phone now c ≡ false)
        (recent_not_spent phone now) s.login_codes.rows h)
