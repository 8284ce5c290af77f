-- ===== src/Auth/Codes/OneCode.antt =====
-- The most recent code of a number is the only one that works, and it works once.
use running_hackathon.Prelude.{
  ℕ, ◌+◌, ◌≤◌, ◌<◌, String, ◌≡◌, true, false, some, List, arith, leb, eq_refl, Bool-cases,
  Option-cases, sym, inl, inr,
}
use mathlib.Core.Path.{subst}
use running_hackathon.Clock.{Time}
use running_hackathon.Outcome.{Result, ok, err, code_invalid}
use running_hackathon.Sql
use running_hackathon.Sql.Laws.{
  count-snoc, top-passes, count-update_lt, count-update_zero, top_of_none, none_of_top, top-last,
}
use running_hackathon.Db.{LoginCode, Store}
use running_hackathon.Auth.Codes.{
  login_code_ttl, login_code_rate, is_outstanding, is_recent, burn, minted, issue_login_code,
  newer_code, with_id_outstanding, check_code, consume_login_code,
}

abbrev pub outstanding : String → Store → ℕ
outstanding phone s = Sql.count (is_outstanding phone) s.login_codes.rows

pub none_outstanding_after_burn :
    (phone : String) (now : Time) (rs : List LoginCode)
    → Sql.count (is_outstanding phone) (Sql.update_rows (is_outstanding phone) (burn now) rs) ≡ 0
unfolding is_outstanding
none_outstanding_after_burn phone now =
    count-update_zero (is_outstanding phone) (is_outstanding phone) (burn now) (λ r h. ground arith)
      (λ r h. h)

ok-ne-invalid : ◌≡◌ {A = Result (Unit {0})} (err code_invalid) (ok tt) → ⊥
ok-ne-invalid e = cc

outstanding_has_id :
    (phone : String) (c : LoginCode)
    → is_outstanding phone c ≡ true
    → with_id_outstanding c.id c ≡ true
unfolding is_outstanding
outstanding_has_id phone c h = ground arith

module _ (hash_secret : String → String) where
  pub minted-is_outstanding :
      (code phone : String) (now : Time) (id : ℕ)
      → is_outstanding phone (minted hash_secret code phone now id) ≡ true
  unfolding is_outstanding
  minted-is_outstanding code phone now id = ground (arith, eq_refl phone)

  -- The newest outstanding code after an issue is the one just minted.
  pub top-issue :
      (code phone : String) (now : Time) (s : Store)
      → (issue_login_code hash_secret code phone now s).0 ≡ ok code
      → Sql.top newer_code
          (is_outstanding phone)
          (issue_login_code hash_secret code phone now s).1.login_codes.rows
        ≡ some (minted hash_secret code phone now s.login_codes.next_id)
  unfolding issue_login_code Sql.insert Sql.update
  top-issue code phone now s h =
      elim (Bool-cases (leb login_code_rate (Sql.count (is_recent phone now) s.login_codes.rows))) [
        | inl e ↦ absurd (ground arith)
        | inr e ↦ rw e (
            top-last newer_code (is_outstanding phone) _ _
              (none_outstanding_after_burn phone now s.login_codes.rows)
              (minted-is_outstanding code phone now s.login_codes.next_id))
      ]

  -- After an issue the number has exactly one outstanding code.
  pub outstanding-issue :
      (code phone : String) (now : Time) (s : Store)
      → (issue_login_code hash_secret code phone now s).0 ≡ ok code
      → outstanding phone (issue_login_code hash_secret code phone now s).1 ≡ 1
  unfolding issue_login_code Sql.insert Sql.update
  outstanding-issue code phone now s h =
      elim (Bool-cases (leb login_code_rate (Sql.count (is_recent phone now) s.login_codes.rows))) [
        | inl e ↦ absurd (ground arith)
        | inr e ↦ rw e (
            ground (
              arith,
              count-snoc (is_outstanding phone)
                  (Sql.update_rows (is_outstanding phone) (burn now) s.login_codes.rows)
                  (minted hash_secret code phone now s.login_codes.next_id),
              none_outstanding_after_burn phone now s.login_codes.rows,
              minted-is_outstanding code phone now s.login_codes.next_id,
            ))
      ]

  pub consume_by_top :
      (phone code : String) (now : Time) (s : Store) (c : LoginCode)
      → Sql.top newer_code (is_outstanding phone) s.login_codes.rows ≡ some c
      → consume_login_code hash_secret phone code now s ≡ check_code hash_secret c code now s
  unfolding consume_login_code
  consume_by_top phone code now s c h = rw (h, consume_login_code)

  check_right_code :
      (code phone : String) (at now : Time) (id : ℕ) (s : Store)
      → now ≤ at + login_code_ttl
      → (check_code hash_secret (minted hash_secret code phone at id) code now s).0 ≡ ok tt
  unfolding check_code
  check_right_code code phone at now id s h = ground (arith, eq_refl (hash_secret code))

  -- A code that was issued is accepted until it expires, whatever the store held before.
  pub consume-issue :
      (code phone : String) (at now : Time) (s : Store)
      → (issue_login_code hash_secret code phone at s).0 ≡ ok code
      → now ≤ at + login_code_ttl
      → (consume_login_code hash_secret phone code now
          (issue_login_code hash_secret code phone at s).1).0
        ≡ ok tt
  consume-issue code phone at now s issued fresh =
      rw
        (consume_by_top phone code now (issue_login_code hash_secret code phone at s).1
          (minted hash_secret code phone at s.login_codes.next_id)
          (top-issue code phone at s issued))
        (check_right_code code phone at now _ _ fresh)

  burnt_is_spent :
      (phone : String) (now : Time) (r : LoginCode) → is_outstanding phone (burn now r) ≡ false
  unfolding is_outstanding
  burnt_is_spent phone now r = ground arith

  -- An accepted code is spent: the number has fewer outstanding codes than before.
  check_spends :
      (phone code : String) (now : Time) (s : Store) (c : LoginCode)
      → Sql.top newer_code (is_outstanding phone) s.login_codes.rows ≡ some c
      → (check_code hash_secret c code now s).0 ≡ ok tt
      → outstanding phone (check_code hash_secret c code now s).1 < outstanding phone s
  unfolding check_code Sql.update
  check_spends phone code now s c t k =
      let fewer =
        count-update_lt newer_code (is_outstanding phone) (with_id_outstanding c.id) (burn now)
          (λ r h. burnt_is_spent phone now r) s.login_codes.rows c t
          (outstanding_has_id phone c
            (top-passes newer_code (is_outstanding phone) s.login_codes.rows c t)) in
      ground (arith, fewer)

  pub consume_by_none :
      (phone code : String) (now : Time) (s : Store)
      → outstanding phone s ≡ 0
      → consume_login_code hash_secret phone code now s ≡ (err code_invalid, s)
  unfolding consume_login_code
  consume_by_none phone code now s h =
      rw (top_of_none newer_code (is_outstanding phone) s.login_codes.rows h, consume_login_code)

  -- What holds of the store and after the checks on any code holds after an attempt.
  pub consume_keeps {κ} :
      (P : Store → Type κ) (phone code : String) (now : Time) (s : Store)
      → P s
      → ((c : LoginCode) → P (check_code hash_secret c code now s).1)
      → P (consume_login_code hash_secret phone code now s).1
  consume_keeps P phone code now s same checked =
      elim (Option-cases (Sql.top newer_code (is_outstanding phone) s.login_codes.rows)) [
        | inl nobody ↦
            subst (λ (r : Result (Unit {0}) × Store). P r.1)
              (sym (
                consume_by_none phone code now s
                  (none_of_top newer_code (is_outstanding phone) s.login_codes.rows nobody)))
              same
        | inr (c, found) ↦
            subst (λ (r : Result (Unit {0}) × Store). P r.1)
              (sym (consume_by_top phone code now s c found)) (checked c)
      ]

  consume_spends :
      (phone code : String) (now : Time) (s : Store)
      → (consume_login_code hash_secret phone code now s).0 ≡ ok tt
      → outstanding phone (consume_login_code hash_secret phone code now s).1 < outstanding phone s
  consume_spends phone code now s k =
      elim (Option-cases (Sql.top newer_code (is_outstanding phone) s.login_codes.rows)) [
        | inl none_left ↦ absurd (
            ok-ne-invalid (
              subst (λ (r : Result (Unit {0}) × Store). r.0 ≡ ok tt)
                (consume_by_none phone code now s
                  (none_of_top newer_code (is_outstanding phone) s.login_codes.rows none_left))
                k))
        | inr (c, found) ↦
            subst (λ (r : Result (Unit {0}) × Store). outstanding phone r.1 < outstanding phone s)
              (sym (consume_by_top phone code now s c found))
              (check_spends phone code now s c found (
                subst (λ (r : Result (Unit {0}) × Store). r.0 ≡ ok tt)
                  (consume_by_top phone code now s c found) k))
      ]

  -- Where a number has at most one outstanding code, no code is accepted after an accepted one: every
  -- later attempt, with any code at any time, is refused as invalid and changes nothing.
  pub consume_twice :
      (phone code again : String) (now later : Time) (s : Store)
      → outstanding phone s ≤ 1
      → (consume_login_code hash_secret phone code now s).0 ≡ ok tt
      → consume_login_code hash_secret phone again later
          (consume_login_code hash_secret phone code now s).1
        ≡ (err code_invalid, (consume_login_code hash_secret phone code now s).1)
  consume_twice phone code again now later s one k =
      consume_by_none phone again later (consume_login_code hash_secret phone code now s).1
        (omega (arith, consume_spends phone code now s k))
