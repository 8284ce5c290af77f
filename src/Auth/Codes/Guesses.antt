-- ===== src/Auth/Codes/Guesses.antt =====
-- The budget of guesses: after five wrong codes nothing is accepted until a new code is issued.
use mathlib.Core.Path.{subst}
use running_hackathon.Prelude.{
  ℕ, suc, ◌+◌, ◌≤◌, String, ◌≡◌, ◌≢◌, sym, ◌∙◌, refl, Bool, true, false, List, [], ◌∷◌, arith, ltb,
  leb, str_eq, eq_iff, Bool-cases, Option-cases, inl, inr, All, All-mono, All-append, length,
}
use native.Mathlib.Nat.{add-zero}
use running_hackathon.Clock.{Time}
use running_hackathon.Outcome.{Result, ok}
use running_hackathon.Sql
use running_hackathon.Sql.Laws.{All-update, top-All, top-passes, none_of_top, All-of_count-zero}
use running_hackathon.Db.{LoginCode, Store}
use running_hackathon.Auth.Codes.{
  login_code_rate, login_code_attempts, is_outstanding, is_recent, burn, one_more, issue_login_code,
  newer_code, with_id, check_code, consume_login_code,
}
-- Every outstanding code of the number is the row `id`, has the digest `h`, and has had at least `n` wrong
-- attempts.
use running_hackathon.Auth.Codes.OneCode.{
  consume_by_none, consume_by_top, none_outstanding_after_burn,
}

true-ne-false : ◌≡◌ {A = Bool} true false → ⊥
true-ne-false e = cc

abbrev Guarded : String → ℕ → String → ℕ → LoginCode → Type 0
Guarded phone id h n r =
    is_outstanding phone r ≡ true → (r.id ≡ id) × (r.code_hash ≡ h) × (n ≤ r.attempts)

abbrev pub AllGuarded : String → ℕ → String → ℕ → Store → Type 0
AllGuarded phone id h n s = All (Guarded phone id h n) s.login_codes.rows

module _ (phone : String) (id : ℕ) (h : String) (n : ℕ) where
  after_burn :
      (i : ℕ) (now : Time) (rs : List LoginCode)
      → All (Guarded phone id h n) rs
      → All (Guarded phone id h n) (Sql.update_rows (with_id i) (burn now) rs)
  after_burn i now rs g =
      All-update (Guarded phone id h n) (Guarded phone id h n) (with_id i) (burn now)
        (λ r gr e o. unfold is_outstanding in absurd (ground (arith, o))) (λ r gr e. gr) rs g

  after_attempt :
      (rs : List LoginCode)
      → All (Guarded phone id h n) rs
      → All (Guarded phone id h (suc n)) (Sql.update_rows (with_id id) one_more rs)
  unfolding is_outstanding
  after_attempt rs g =
      All-update (Guarded phone id h n) (Guarded phone id h (suc n)) (with_id id) one_more
        (λ r gr e o. let (a, b, c) = gr o in (a, b, omega arith))
        (λ r gr e o. let (a, b, c) = gr o in absurd (ground (arith, a))) rs g

  after_own_burn :
      (now : Time) (rs : List LoginCode) (m : ℕ)
      → All (Guarded phone id h n) rs
      → All (Guarded phone id h m) (Sql.update_rows (with_id id) (burn now) rs)
  unfolding is_outstanding
  after_own_burn now rs m g =
      All-update (Guarded phone id h n) (Guarded phone id h m) (with_id id) (burn now)
        (λ r gr e o. absurd (ground (arith, o)))
        (λ r gr e o. let (a, b, c) = gr o in absurd (ground (arith, a))) rs g

  without_outstanding :
      (rs : List LoginCode) (m : ℕ)
      → Sql.count (is_outstanding phone) rs ≡ 0
      → All (Guarded phone id h m) rs
  without_outstanding rs m e =
      All-mono (λ r. is_outstanding phone r ≡ false) (Guarded phone id h m)
        (λ r no_more o. absurd (true-ne-false (sym o ∙ no_more))) rs
        (All-of_count-zero (is_outstanding phone) rs e)

module _ (hash_secret : String → String) (phone : String) where
  check_wrong :
      (id : ℕ) (h : String) (n : ℕ) (c : LoginCode) (code : String) (now : Time) (s : Store)
      → c.id ≡ id
      → c.code_hash ≡ h
      → h ≢ hash_secret code
      → AllGuarded phone id h n s
      → AllGuarded phone id h (suc n) (check_code hash_secret c code now s).1
  unfolding check_code Sql.update
  check_wrong id h n c code now s e k wrong g = elim (Bool-cases (ltb c.expires_at now)) [
    | inl late ↦ rw (late, e) (after_own_burn phone id h n now s.login_codes.rows (suc n) g)
    | inr fresh ↦ rw fresh (elim (Bool-cases (leb login_code_attempts c.attempts)) [
      | inl many ↦ rw (many, e) (after_own_burn phone id h n now s.login_codes.rows (suc n) g)
      | inr few ↦ rw few (elim (Bool-cases (str_eq c.code_hash (hash_secret code))) [
        | inl same ↦ absurd (wrong (sym k ∙ (eq_iff c.code_hash (hash_secret code)).0 same))
        | inr differ ↦ rw differ (elim (Bool-cases (leb login_code_attempts (c.attempts + 1))) [
          | inl last ↦
              rw (last, e)
                (after_burn phone id h (suc n) id now
                  (Sql.update_rows (with_id id) one_more s.login_codes.rows)
                  (after_attempt phone id h n s.login_codes.rows g))
          | inr more ↦ rw (more, e) (after_attempt phone id h n s.login_codes.rows g)
        ])
      ])
    ])
  ]

  consume_wrong :
      (id : ℕ) (h : String) (n : ℕ) (code : String) (now : Time) (s : Store)
      → h ≢ hash_secret code
      → AllGuarded phone id h n s
      → AllGuarded phone id h (suc n) (consume_login_code hash_secret phone code now s).1
  consume_wrong id h n code now s wrong g =
      elim (Option-cases (Sql.top newer_code (is_outstanding phone) s.login_codes.rows)) [
        | inl nobody ↦
            subst (λ (r : Result (Unit {0}) × Store). AllGuarded phone id h (suc n) r.1)
              (sym (
                consume_by_none hash_secret phone code now s
                  (none_of_top newer_code (is_outstanding phone) s.login_codes.rows nobody)))
              (without_outstanding phone id h n s.login_codes.rows (suc n)
                (none_of_top newer_code (is_outstanding phone) s.login_codes.rows nobody))
        | inr (c, found) ↦
            let (same_id, same_hash, _) =
              top-All (Guarded phone id h n) newer_code (is_outstanding phone) s.login_codes.rows c
                g found (top-passes newer_code (is_outstanding phone) s.login_codes.rows c found) in
            subst (λ (r : Result (Unit {0}) × Store). AllGuarded phone id h (suc n) r.1)
              (sym (consume_by_top hash_secret phone code now s c found))
              (check_wrong id h n c code now s same_id same_hash wrong g)
      ]

  check_exhausted :
      (c : LoginCode) (code : String) (now : Time) (s : Store)
      → login_code_attempts ≤ c.attempts
      → (check_code hash_secret c code now s).0 ≢ ok tt
  unfolding check_code
  check_exhausted c code now s many = ground arith

  consume_exhausted :
      (id : ℕ) (h : String) (n : ℕ) (code : String) (now : Time) (s : Store)
      → login_code_attempts ≤ n
      → AllGuarded phone id h n s
      → (consume_login_code hash_secret phone code now s).0 ≢ ok tt
  consume_exhausted id h n code now s many g =
      elim (Option-cases (Sql.top newer_code (is_outstanding phone) s.login_codes.rows)) [
        | inl nobody ↦
            subst (λ (r : Result (Unit {0}) × Store). r.0 ≢ ok tt)
              (sym (
                consume_by_none hash_secret phone code now s
                  (none_of_top newer_code (is_outstanding phone) s.login_codes.rows nobody)))
              (λ e. cc)
        | inr (c, found) ↦
            let (_, _, tried) =
              top-All (Guarded phone id h n) newer_code (is_outstanding phone) s.login_codes.rows c
                g found (top-passes newer_code (is_outstanding phone) s.login_codes.rows c found) in
            subst (λ (r : Result (Unit {0}) × Store). r.0 ≢ ok tt)
              (sym (consume_by_top hash_secret phone code now s c found))
              (check_exhausted c code now s (omega arith))
      ]

  -- Attempts one after the other, each with a code and a time; what they answer is dropped.
  abbrev pub attempts : List (String × Time) → Store → Store
  attempts [] s = s
  attempts ((code, now) ∷ gs) s = attempts gs (consume_login_code hash_secret phone code now s).1

  attempts_wrong :
      (id : ℕ) (h : String) (n : ℕ) (gs : List (String × Time)) (s : Store)
      → All (λ (g : String × Time). h ≢ hash_secret g.0) gs
      → AllGuarded phone id h n s
      → AllGuarded phone id h (n + length gs) (attempts gs s)
  attempts_wrong id h n [] s w g = rw add-zero g
  attempts_wrong id h n ((code, now) ∷ gs) s (w, ws) g =
      let rest =
        attempts_wrong id h (suc n) gs (consume_login_code hash_secret phone code now s).1 ws
          (consume_wrong id h n code now s w g) in
      subst
        (λ k.
          AllGuarded phone id h k (attempts gs (consume_login_code hash_secret phone code now s).1))
        (omega arith) rest

  guarded-issue :
      (code : String) (at : Time) (s : Store)
      → (issue_login_code hash_secret code phone at s).0 ≡ ok code
      → AllGuarded phone s.login_codes.next_id
          (hash_secret code)
          0
          (issue_login_code hash_secret code phone at s).1
  unfolding issue_login_code Sql.insert Sql.update
  guarded-issue code at s h =
      elim (Bool-cases (leb login_code_rate (Sql.count (is_recent phone at) s.login_codes.rows))) [
        | inl e ↦ absurd (ground arith)
        | inr e ↦ rw e (
            All-append (Guarded phone s.login_codes.next_id (hash_secret code) 0) _ _
              (without_outstanding phone s.login_codes.next_id (hash_secret code) 0 _ 0
                (none_outstanding_after_burn phone at s.login_codes.rows))
              ((λ o. (refl, refl, omega arith)), tt))
      ]

  -- After a code is issued and five or more attempts are made with codes of another digest, no attempt
  -- is accepted, whatever its code and its time.
  pub guess_budget :
      (code : String) (at : Time) (s : Store) (gs : List (String × Time)) (last : String)
      (now : Time)
      → (issue_login_code hash_secret code phone at s).0 ≡ ok code
      → All (λ (g : String × Time). hash_secret code ≢ hash_secret g.0) gs
      → login_code_attempts ≤ length gs
      → (consume_login_code hash_secret phone last now
          (attempts gs (issue_login_code hash_secret code phone at s).1)).0
        ≢ ok tt
  guess_budget code at s gs last now issued wrong many =
      consume_exhausted s.login_codes.next_id (hash_secret code) (0 + length gs) last now
        (attempts gs (issue_login_code hash_secret code phone at s).1) (omega arith)
        (attempts_wrong s.login_codes.next_id (hash_secret code) 0 gs
          (issue_login_code hash_secret code phone at s).1 wrong (guarded-issue code at s issued))
