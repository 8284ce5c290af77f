-- ===== src/Signals/Consents/Decisions.antt =====
-- The decisions that a person has on file for a scope, and what HasConsent makes of them.
use running_hackathon.Prelude.{
  ℕ, ◌+◌, ◌≤◌, String, Bool, true, false, not, ◌&&◌, ◌≡◌, sym, ◌∙◌, Option, none, some, arith, leb,
  ◌==◌, str_eq, Option-cases, inl, inr,
}
use running_hackathon.Sql
use running_hackathon.Sql.Laws.{
  first-All, first-passes, All-select, All-of_count-zero, none_of_first, count-select, count_split,
}
use running_hackathon.Sql.Order.{All-order_by, count-order_by}
use running_hackathon.Db.{Consent, Store}
use running_hackathon.Signals.Consents.{is_active, is_for, scope_before, consents, has_consent}

abbrev pub active_for : ℕ → String → Consent → Bool
active_for user_id scope c = is_for user_id scope c && is_active c

abbrev pub inactive_for : ℕ → String → Consent → Bool
inactive_for user_id scope c = is_for user_id scope c && not (is_active c)

-- How many decisions a person has on file for a scope, and how many of them are active.
abbrev pub decisions : ℕ → String → Store → ℕ
decisions user_id scope s = Sql.count (is_for user_id scope) s.consents.rows

abbrev pub active_decisions : ℕ → String → Store → ℕ
active_decisions user_id scope s = Sql.count (active_for user_id scope) s.consents.rows

module _ (user_id : ℕ) (scope : String) (s : Store) where
  abbrev has_scope : Consent → Bool
  has_scope c = str_eq c.scope scope

  none_for : Sql.first has_scope (consents user_id s) ≡ none → decisions user_id scope s ≡ 0
  unfolding consents is_for
  none_for h =
      sym (count-select has_scope (λ (c : Consent). c.user_id == user_id) s.consents.rows)
      ∙ sym (
          count-order_by has_scope scope_before
            (Sql.select (λ (c : Consent). c.user_id == user_id) s.consents.rows))
      ∙ none_of_first has_scope _ h

  -- A property of no row for the person and the scope is not one of the row found.
  found_fails :
      (p : Consent → Bool) (c : Consent)
      → Sql.first has_scope (consents user_id s) ≡ some c
      → Sql.count (λ r. is_for user_id scope r && p r) s.consents.rows ≡ 0
      → p c ≡ false
  unfolding consents is_for
  found_fails p c h zero_left =
      let fails = λ (r : Consent). ((r.user_id == user_id) && str_eq r.scope scope) && p r in
      let each = All-of_count-zero fails s.consents.rows zero_left in
      let picked =
        All-select (λ r. fails r ≡ false) (λ (r : Consent). r.user_id == user_id) s.consents.rows
          each in
      let (fail, own) =
        first-All (λ r. (fails r ≡ false) × ((r.user_id == user_id) ≡ true)) has_scope _ c
          (All-order_by (λ r. (fails r ≡ false) × ((r.user_id == user_id) ≡ true)) scope_before _
            picked)
          h in
      last_part (c.user_id == user_id) (str_eq c.scope scope) (p c) own
        (first-passes has_scope _ c h) fail
    where
      last_part : (a b e : Bool) → a ≡ true → b ≡ true → ((a && b) && e) ≡ false → e ≡ false
      last_part a b e ha hb h = ground arith

  consent_by_row :
      (o : Option Consent)
      → Sql.first has_scope (consents user_id s) ≡ o
      → has_consent user_id scope s ≡ elim o [ none ↦ false | some c ↦ is_active c ]
  unfolding has_consent
  consent_by_row o h = rw (h, has_consent)

  active_counts :
      (c : Consent)
      → Sql.first has_scope (consents user_id s) ≡ some c
      → decisions user_id scope s ≤ 1
      → is_active c ≡ leb 1 (active_decisions user_id scope s)
  active_counts c h unique =
      let split = count_split (is_for user_id scope) is_active s.consents.rows in
      let when_none = λ (e : active_decisions user_id scope s ≡ 0). found_fails is_active c h e in
      let when_all = λ (e : Sql.count (inactive_for user_id scope) s.consents.rows ≡ 0).
        found_fails (λ r. not (is_active r)) c h e in
      decide_both (is_active c) (active_decisions user_id scope s)
        (Sql.count (inactive_for user_id scope) s.consents.rows) when_none when_all (omega arith)
    where
      decide_both :
          (b : Bool) (m n : ℕ)
          → (m ≡ 0 → b ≡ false)
          → (n ≡ 0 → not b ≡ false)
          → m + n ≤ 1
          → b ≡ leb 1 m
      decide_both b m n h k le = ground arith

  -- With at most one decision on file, the scope is granted exactly when one is active.
  pub has_consent-count :
      decisions user_id scope s ≤ 1
      → has_consent user_id scope s ≡ leb 1 (active_decisions user_id scope s)
  has_consent-count unique = elim (Option-cases (Sql.first has_scope (consents user_id s))) [
    | inl nobody ↦
        consent_by_row none nobody
        ∙ no_decision (active_decisions user_id scope s)
            (Sql.count (inactive_for user_id scope) s.consents.rows)
            (count_split (is_for user_id scope) is_active s.consents.rows ∙ none_for nobody)
    | inr (c, found) ↦ consent_by_row (some c) found ∙ active_counts c found unique
  ]
    where
      no_decision : (m n : ℕ) → m + n ≡ 0 → false ≡ leb 1 m
      no_decision m n h = ground arith
