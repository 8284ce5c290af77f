-- ===== src/Auth/Codes/History.antt =====
-- The login codes over any history of requests, attempts, provider failures and retention sweeps.
use mathlib.Core.Path.{subst}
use running_hackathon.Prelude.{
  ℕ, ◌+◌, ◌<◌, ◌≤◌, String, Bool, false, ◌≡◌, refl, sym, List, [], ◌∷◌, arith, leb, str_eq, eq_iff,
  Bool-cases, ◌⊎◌, inl, inr, if◌then◌else◌,
}
use running_hackathon.Clock.{Time}
use running_hackathon.Sql
use running_hackathon.Sql.Laws.{
  count-snoc, count_mono, count-update_eq, count-update_le, count-delete_le,
}
use running_hackathon.Db.{LoginCode, Store}
use running_hackathon.Auth.Codes.{
  login_code_rate, is_recent, is_outstanding, burn, one_more, minted, with_id, with_id_outstanding,
  issue_login_code, discard_login_code, check_code, consume_login_code,
}
use running_hackathon.Auth.Codes.OneCode.{consume_keeps, outstanding, none_outstanding_after_burn}
use running_hackathon.Auth.Purge.{is_spent, purge_expired_auth}

-- One request to the code store: a code drawn for a number, an attempt at a code, a provider that failed
-- to deliver, and the hourly sweep.
pub data CodeOp : Type 0 where
  issue : String → String → CodeOp
  consume : String → String → CodeOp
  discard : String → CodeOp
  sweep : CodeOp

module _ (hash_secret : String → String) where
  pub perform : CodeOp → Time → Store → Store
  perform (issue code phone) now s = (issue_login_code hash_secret code phone now s).1
  perform (consume phone code) now s = (consume_login_code hash_secret phone code now s).1
  perform (discard phone) now s = discard_login_code phone s
  perform sweep now s = purge_expired_auth now s

  -- The operations of a history stand with the time that passed before each.
  pub history : List (ℕ × CodeOp) → Time → Store → Time × Store
  history [] now s = (now, s)
  history ((wait, op) ∷ ops) now s = history ops (now + wait) (perform op (now + wait) s)

abbrev pub recent : String → Time → Store → ℕ
recent phone now s = Sql.count (is_recent phone now) s.login_codes.rows

-- Codes stop being recent as time passes.
recent_later :
    (phone : String) (now later : Time) (s : Store)
    → now ≤ later
    → recent phone later s ≤ recent phone now s
unfolding is_recent
recent_later phone now later s h =
    count_mono (is_recent phone later) (is_recent phone now) (λ r e. ground arith)
      s.login_codes.rows

module _ (hash_secret : String → String) where
  recent-check :
      (phone : String) (at : Time) (c : LoginCode) (code : String) (now : Time) (s : Store)
      → recent phone at (check_code hash_secret c code now s).1 ≡ recent phone at s
  unfolding check_code Sql.update is_recent
  recent-check phone at c code now s =
      let by = λ (w : LoginCode → Bool) (rs : List LoginCode).
        count-update_eq (is_recent phone at) w (burn now) (λ r h. refl) rs in
      let tried =
        count-update_eq (is_recent phone at) (with_id c.id) one_more (λ r h. refl)
          s.login_codes.rows in
      ground (
        arith,
        by (with_id c.id) s.login_codes.rows,
        by (with_id c.id) (Sql.update_rows (with_id c.id) one_more s.login_codes.rows),
        by (with_id_outstanding c.id) s.login_codes.rows,
        tried,
      )

  recent-consume :
      (phone : String) (at : Time) (of code : String) (now : Time) (s : Store)
      → recent phone at (consume_login_code hash_secret of code now s).1 ≡ recent phone at s
  recent-consume phone at of code now s =
      consume_keeps hash_secret (λ t. recent phone at t ≡ recent phone at s) of code now s refl
        (λ c. recent-check phone at c code now s)

  -- What an issue does to the recent codes of a number: at most one more, and only below the limit.
  recent-issue :
      (phone : String) (of code : String) (now : Time) (s : Store)
      → (recent phone now (issue_login_code hash_secret code of now s).1
            ≡ recent phone now s
              + (if is_recent phone now (minted hash_secret code of now s.login_codes.next_id)
                  then 1
                  else 0))
          × (recent of now s < login_code_rate)
        ⊎ (recent phone now (issue_login_code hash_secret code of now s).1 ≡ recent phone now s)
  unfolding issue_login_code Sql.insert Sql.update
  recent-issue phone of code now s =
      let kept =
        count-update_eq (is_recent phone now) (is_outstanding of) (burn now)
          (λ r e. unfold is_recent in refl) s.login_codes.rows in
      let added =
        count-snoc (is_recent phone now)
          (Sql.update_rows (is_outstanding of) (burn now) s.login_codes.rows)
          (minted hash_secret code of now s.login_codes.next_id) in
      elim (Bool-cases (leb login_code_rate (Sql.count (is_recent of now) s.login_codes.rows))) [
        | inl full ↦ inr (rw full)
        | inr room ↦ inl (rw room (omega (arith, kept, added)), ground arith)
      ]

  recent-issue-le :
      (phone : String) (of code : String) (now : Time) (s : Store)
      → recent phone now s ≤ login_code_rate
      → recent phone now (issue_login_code hash_secret code of now s).1 ≤ login_code_rate
  unfolding is_recent
  recent-issue-le phone of code now s h = elim (recent-issue phone of code now s) [
    | inr same ↦ omega arith
    | inl (more, room) ↦ elim (Bool-cases (str_eq of phone)) [
      | inl equal ↦
          let here =
            subst (λ (p : String). recent p now s < login_code_rate) ((eq_iff of phone).0 equal)
              room in
          ground arith
      | inr other ↦ ground arith
    ]
  ]

  recent-perform :
      (op : CodeOp) (phone : String) (now : Time) (s : Store)
      → recent phone now s ≤ login_code_rate
      → recent phone now (perform hash_secret op now s) ≤ login_code_rate
  unfolding perform
  recent-perform (issue code of) phone now s h = recent-issue-le phone of code now s h
  recent-perform (consume of code) phone now s h =
      omega (arith, recent-consume phone now of code now s)
  recent-perform (discard of) phone now s h =
      unfold discard_login_code Sql.delete in
      omega (arith, count-delete_le (is_recent phone now) (is_outstanding of) s.login_codes.rows)
  recent-perform sweep phone now s h =
      unfold purge_expired_auth Sql.delete in
      omega (arith, count-delete_le (is_recent phone now) (is_spent now) s.login_codes.rows)

  -- From a store in which no number has more than three recent codes, no history of requests, attempts,
  -- failed deliveries and sweeps gives a number more than three codes inside fifteen minutes.
  pub history-recent-le :
      (ops : List (ℕ × CodeOp)) (phone : String) (start : Time) (s : Store)
      → recent phone start s ≤ login_code_rate
      → recent phone (history hash_secret ops start s).0 (history hash_secret ops start s).1
        ≤ login_code_rate
  unfolding history
  history-recent-le [] phone start s h = h
  history-recent-le ((wait, op) ∷ ops) phone start s h =
      history-recent-le ops phone (start + wait) (perform hash_secret op (start + wait) s) (
        recent-perform op phone (start + wait) s
          (omega (arith, recent_later phone start (start + wait) s (omega arith))))

  outstanding-check-le :
      (phone : String) (c : LoginCode) (code : String) (now : Time) (s : Store)
      → outstanding phone (check_code hash_secret c code now s).1 ≤ outstanding phone s
  unfolding check_code Sql.update is_outstanding
  outstanding-check-le phone c code now s =
      let by = λ (w : LoginCode → Bool) (rs : List LoginCode).
        count-update_le (is_outstanding phone) w (burn now) (λ r h k. ground arith) rs in
      let tried =
        count-update_eq (is_outstanding phone) (with_id c.id) one_more (λ r h. refl)
          s.login_codes.rows in
      ground (
        arith,
        by (with_id c.id) s.login_codes.rows,
        by (with_id c.id) (Sql.update_rows (with_id c.id) one_more s.login_codes.rows),
        by (with_id_outstanding c.id) s.login_codes.rows,
        tried,
      )

  outstanding-issue_self :
      (of code : String) (now : Time) (s : Store)
      → outstanding of s ≤ 1
      → outstanding of (issue_login_code hash_secret code of now s).1 ≤ 1
  unfolding issue_login_code Sql.insert Sql.update
  outstanding-issue_self of code now s h = ground (
    arith,
    none_outstanding_after_burn of now s.login_codes.rows,
    count-snoc (is_outstanding of)
        (Sql.update_rows (is_outstanding of) (burn now) s.login_codes.rows)
        (minted hash_secret code of now s.login_codes.next_id),
  )

  outstanding-issue_ne :
      (phone of code : String) (now : Time) (s : Store)
      → str_eq of phone ≡ false
      → outstanding phone (issue_login_code hash_secret code of now s).1 ≤ outstanding phone s
  unfolding issue_login_code Sql.insert Sql.update is_outstanding
  outstanding-issue_ne phone of code now s other = ground (
    arith,
    count-update_le (is_outstanding phone) (is_outstanding of) (burn now) (λ r h k. ground arith)
        s.login_codes.rows,
    count-snoc (is_outstanding phone)
        (Sql.update_rows (is_outstanding of) (burn now) s.login_codes.rows)
        (minted hash_secret code of now s.login_codes.next_id),
  )

  outstanding-issue-le :
      (phone of code : String) (now : Time) (s : Store)
      → outstanding phone s ≤ 1
      → outstanding phone (issue_login_code hash_secret code of now s).1 ≤ 1
  outstanding-issue-le phone of code now s h = elim (Bool-cases (str_eq of phone)) [
    | inl same ↦
        let equal = (eq_iff of phone).0 same in
        subst (λ (p : String). outstanding p (issue_login_code hash_secret code of now s).1 ≤ 1)
          equal
          (outstanding-issue_self of code now s
            (subst (λ (p : String). outstanding p s ≤ 1) (sym equal) h))
    | inr other ↦ omega (arith, outstanding-issue_ne phone of code now s other)
  ]

  outstanding-perform :
      (op : CodeOp) (phone : String) (now : Time) (s : Store)
      → outstanding phone s ≤ 1
      → outstanding phone (perform hash_secret op now s) ≤ 1
  unfolding perform
  outstanding-perform (issue code of) phone now s h = outstanding-issue-le phone of code now s h
  outstanding-perform (consume of code) phone now s h =
      consume_keeps hash_secret (λ t. outstanding phone t ≤ 1) of code now s h
        (λ c. omega (arith, outstanding-check-le phone c code now s))
  outstanding-perform (discard of) phone now s h =
      unfold discard_login_code Sql.delete in
      omega (arith, count-delete_le (is_outstanding phone) (is_outstanding of) s.login_codes.rows)
  outstanding-perform sweep phone now s h =
      unfold purge_expired_auth Sql.delete in
      omega (arith, count-delete_le (is_outstanding phone) (is_spent now) s.login_codes.rows)

  -- A number with at most one outstanding code has at most one after any history.
  pub history-outstanding-le :
      (ops : List (ℕ × CodeOp)) (phone : String) (start : Time) (s : Store)
      → outstanding phone s ≤ 1
      → outstanding phone (history hash_secret ops start s).1 ≤ 1
  unfolding history
  history-outstanding-le [] phone start s h = h
  history-outstanding-le ((wait, op) ∷ ops) phone start s h =
      history-outstanding-le ops phone (start + wait) (perform hash_secret op (start + wait) s)
        (outstanding-perform op phone (start + wait) s h)
