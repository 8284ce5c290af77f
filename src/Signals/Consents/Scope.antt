-- ===== src/Signals/Consents/Scope.antt =====
-- Consent is per scope and per person.
use mathlib.Core.Path.{subst}
use running_hackathon.Prelude.{
  ℕ, ◌+◌, ◌≤◌, String, Bool, true, false, not, ◌&&◌, ◌≡◌, refl, sym, ap, ◌∙◌, none, some, arith,
  ltb, leb, ◌==◌, str_eq, eq_iff, eq_refl, if◌then◌else◌, All, All-mono, Bool-cases, Option-cases,
  inl, inr,
}
use running_hackathon.Clock.{Time}
use running_hackathon.Sql
use running_hackathon.Sql.Laws.{
  count_split, count-update_eq, count-update_all, count-update_none, count-insert_ignore,
  All-insert_ignore,
}
use running_hackathon.Db.{Consent, Store}
use running_hackathon.Signals.Consents.{
  valid_signal_kind, is_active, is_for, decision, decide, set_consent, has_consent,
}
use running_hackathon.Signals.Consents.Decisions.{
  active_for, decisions, active_decisions, has_consent-count,
}

not_both_pairs :
    (user_id of_user : ℕ) (scope of_scope : String) (r : Consent)
    → ((user_id == of_user) && str_eq scope of_scope) ≡ false
    → is_for of_user of_scope r ≡ true
    → is_for user_id scope r ≡ false
unfolding is_for
not_both_pairs user_id of_user scope of_scope r other h =
    ground (arith, eq_iff scope of_scope, eq_iff r.scope scope, eq_iff r.scope of_scope)

is_for-decide :
    (user_id : ℕ) (scope : String) (granted : Bool) (source : String) (now : Time) (r : Consent)
    → is_for user_id scope (decide granted source now r) ≡ is_for user_id scope r
unfolding is_for
is_for-decide user_id scope true source now r = refl
is_for-decide user_id scope false source now r = refl

is_for-decision :
    (user_id : ℕ) (scope : String) (granted : Bool) (source : String) (now : Time) (id : ℕ)
    → is_for user_id scope (decision user_id scope granted source now id) ≡ true
unfolding is_for
is_for-decision user_id scope granted source now id = ground (arith, eq_refl scope)

module _ (of_user : ℕ) (of_scope : String) (granted : Bool) (source : String) (now : Time)
    (s : Store) (valid : valid_signal_kind of_scope ≡ true) where
  rows-set_consent :
      (set_consent of_user of_scope granted source now s).1.consents.rows
      ≡ Sql.update_rows
          (is_for of_user of_scope)
          (decide granted source now)
          (Sql.insert_ignore
            (is_for of_user of_scope)
            (decision of_user of_scope granted source now)
            s.consents).rows
  unfolding set_consent Sql.update
  rows-set_consent = rw valid

  -- A decision on another scope, or of another person, changes no count.
  other_count :
      (user_id : ℕ) (scope : String) (p : Consent → Bool)
      → ((user_id == of_user) && str_eq scope of_scope) ≡ false
      → Sql.count
          (λ r. is_for user_id scope r && p r)
          (set_consent of_user of_scope granted source now s).1.consents.rows
        ≡ Sql.count (λ r. is_for user_id scope r && p r) s.consents.rows
  other_count user_id scope p other =
      let q = λ (r : Consent). is_for user_id scope r && p r in
      let row = decision of_user of_scope granted source now in
      let unseen =
        not_both_pairs user_id of_user scope of_scope (row s.consents.next_id) other
          (is_for-decision of_user of_scope granted source now s.consents.next_id) in
      rw rows-set_consent (
        count-update_eq q (is_for of_user of_scope) (decide granted source now)
          (λ r h. skipped r (not_both_pairs user_id of_user scope of_scope r other h))
          (Sql.insert_ignore (is_for of_user of_scope) row s.consents).rows
        ∙ count-insert_ignore q (is_for of_user of_scope) row s.consents
        ∙ same_sum (Sql.count q s.consents.rows)
            (Sql.count (is_for of_user of_scope) s.consents.rows)
            (is_for user_id scope (row s.consents.next_id)) (p (row s.consents.next_id)) unseen)
    where
      skipped :
          (r : Consent)
          → is_for user_id scope r ≡ false
          → (is_for user_id scope (decide granted source now r) && p (decide granted source now r))
            ≡ (is_for user_id scope r && p r)
      skipped r h = rw (is_for-decide user_id scope granted source now r, h)

      same_sum :
          (n m : ℕ) (a b : Bool)
          → a ≡ false
          → n + (if m == 0 then (if a && b then 1 else 0) else 0) ≡ n
      same_sum n m a b h = ground arith

  -- A decision leaves exactly one row for its scope, if there was at most one.
  own_decisions :
      decisions of_user of_scope s ≤ 1
      → Sql.count
          (is_for of_user of_scope)
          (Sql.insert_ignore
            (is_for of_user of_scope)
            (decision of_user of_scope granted source now)
            s.consents).rows
        ≡ 1
  own_decisions h = ground (
    arith,
    count-insert_ignore (is_for of_user of_scope) (is_for of_user of_scope)
        (decision of_user of_scope granted source now) s.consents,
    is_for-decision of_user of_scope granted source now s.consents.next_id,
  )

  decided :
      decisions of_user of_scope s ≤ 1
      → decisions of_user of_scope (set_consent of_user of_scope granted source now s).1 ≡ 1
  decided h = rw rows-set_consent (
      count-update_eq (is_for of_user of_scope) (is_for of_user of_scope)
        (decide granted source now) (λ r _. is_for-decide of_user of_scope granted source now r)
        (Sql.insert_ignore (is_for of_user of_scope) (decision of_user of_scope granted source now)
          s.consents).rows
      ∙ own_decisions h)

  other_decisions :
      (user_id : ℕ) (scope : String)
      → ((user_id == of_user) && str_eq scope of_scope) ≡ false
      → decisions user_id scope (set_consent of_user of_scope granted source now s).1
        ≡ decisions user_id scope s
  other_decisions user_id scope other =
      let after = (set_consent of_user of_scope granted source now s).1.consents.rows in
      omega (
        arith,
        other_count user_id scope is_active other,
        other_count user_id scope (λ r. not (is_active r)) other,
        count_split (is_for user_id scope) is_active after,
        count_split (is_for user_id scope) is_active s.consents.rows,
      )

-- No grant of the scope on file is later than `now`.
abbrev pub GrantedBy : Time → Consent → Type 0
GrantedBy now c = (t : Time) → c.granted_at ≡ some t → t ≤ now

revoked_is_inactive :
    (source : String) (now : Time) (c : Consent)
    → GrantedBy now c
    → is_active (decide false source now c) ≡ false
unfolding is_active
revoked_is_inactive source now c h = elim (Option-cases c.granted_at) [
  | inl e ↦ rw e
  | inr (t, e) ↦ rw e (late t (h t e))
]
  where
    late : (t : Time) → t ≤ now → ltb now t ≡ false
    late t le = ground arith

module _ (of_user : ℕ) (of_scope source : String) (now : Time) (s : Store)
    (valid : valid_signal_kind of_scope ≡ true) (unique : decisions of_user of_scope s ≤ 1) where
  granted_active :
      active_decisions of_user of_scope (set_consent of_user of_scope true source now s).1 ≡ 1
  granted_active = rw (rows-set_consent of_user of_scope true source now s valid) (
      count-update_all (active_for of_user of_scope) (is_for of_user of_scope)
        (decide true source now)
        (λ r h. unfold is_active in rw (is_for-decide of_user of_scope true source now r, h))
        (λ r h. rw h)
        (Sql.insert_ignore (is_for of_user of_scope) (decision of_user of_scope true source now)
          s.consents).rows
      ∙ own_decisions of_user of_scope true source now s valid unique)

  revoked_active :
      All (GrantedBy now) s.consents.rows
      → active_decisions of_user of_scope (set_consent of_user of_scope false source now s).1 ≡ 0
  revoked_active h = rw (rows-set_consent of_user of_scope false source now s valid) (
      count-update_none (active_for of_user of_scope) (is_for of_user of_scope)
        (decide false source now)
        (Sql.insert_ignore (is_for of_user of_scope) (decision of_user of_scope false source now)
          s.consents).rows
        (All-mono (GrantedBy now)
          (λ r.
            is_for of_user of_scope r ≡ true
            → active_for of_user of_scope (decide false source now r) ≡ false)
          (λ r g _.
            rw (revoked_is_inactive source now r g)
              (and-false (is_for of_user of_scope (decide false source now r))))
          _
          (All-insert_ignore (GrantedBy now) (is_for of_user of_scope)
            (decision of_user of_scope false source now) s.consents (λ t e. absurd (never e)) h))
        (λ r e. rw e))
    where
      never : {t : Time} → none ≡ some t → ⊥
      never e = cc

      and-false : (b : Bool) → (b && false) ≡ false
      and-false b = ground arith

own_consent :
    (of_user : ℕ) (of_scope : String) (granted : Bool) (source : String) (now : Time) (s : Store)
    → valid_signal_kind of_scope ≡ true
    → decisions of_user of_scope s ≤ 1
    → All (GrantedBy now) s.consents.rows
    → has_consent of_user of_scope (set_consent of_user of_scope granted source now s).1 ≡ granted
own_consent of_user of_scope true source now s valid unique grants =
    has_consent-count of_user of_scope (set_consent of_user of_scope true source now s).1
      (omega (arith, decided of_user of_scope true source now s valid unique))
    ∙ ap (leb 1) (granted_active of_user of_scope source now s valid unique)
own_consent of_user of_scope false source now s valid unique grants =
    has_consent-count of_user of_scope (set_consent of_user of_scope false source now s).1
      (omega (arith, decided of_user of_scope false source now s valid unique))
    ∙ ap (leb 1) (revoked_active of_user of_scope source now s valid unique grants)

same_pair :
    (user_id of_user : ℕ) (scope of_scope : String)
    → ((user_id == of_user) && str_eq scope of_scope) ≡ true
    → (of_user ≡ user_id) × (of_scope ≡ scope)
same_pair user_id of_user scope of_scope h = ground (arith, eq_iff scope of_scope)

-- A decision on one known scope of one person sets that consent and leaves every other consent, of
-- that person and of everybody else, as it was: where the table has at most one decision of the person
-- on the scope that is asked for, and no grant of it is later than the clock.
pub has_consent-set_consent :
    (user_id of_user : ℕ) (scope of_scope : String) (granted : Bool) (source : String) (now : Time)
    (s : Store)
    → valid_signal_kind of_scope ≡ true
    → decisions user_id scope s ≤ 1
    → All (GrantedBy now) s.consents.rows
    → has_consent user_id scope (set_consent of_user of_scope granted source now s).1 ≡ (
        if (user_id == of_user) && str_eq scope of_scope
        then granted
        else has_consent user_id scope s)
has_consent-set_consent user_id of_user scope of_scope granted source now s valid unique grants =
    elim (Bool-cases ((user_id == of_user) && str_eq scope of_scope)) [
      | inr other ↦ rw other (
          has_consent-count user_id scope (set_consent of_user of_scope granted source now s).1 (
            omega (
              arith,
              other_decisions of_user of_scope granted source now s valid user_id scope other,
            ))
          ∙ ap (leb 1) (
              other_count of_user of_scope granted source now s valid user_id scope is_active other)
          ∙ sym (has_consent-count user_id scope s unique))
      | inl same ↦
          let (user, kind) = same_pair user_id of_user scope of_scope same in
          rw (same, user, kind)
            (own_consent user_id scope granted source now s
              (subst (λ (k : String). valid_signal_kind k ≡ true) kind valid) unique grants)
    ]
