-- ===== src/Sql/Order.antt =====
-- ORDER BY keeps the rows, and puts them in order.
use mathlib.Core.Path.{subst}
use running_hackathon.Prelude.{
  sym, ◌∙◌, ◌+◌, ◌≡◌, refl, Bool, true, false, ◌&&◌, inl, inr, some, List, [], ◌∷◌, arith,
  if◌then◌else◌, All, All-mono, Bool-cases,
}
use running_hackathon.Sql.{update_rows, count, first, place, order_by}
use running_hackathon.Sql.Laws.{first-head, first-tail}

true-ne-false : ◌≡◌ {A = Bool} true false → ⊥
true-ne-false e = cc

module _ {ℓ κ} {A : Type ℓ} (P : A → Type κ) (before : A → A → Bool) where
  All-place : (r : A) (rs : List A) → P r → All P rs → All P (place before r rs)
  unfolding place
  All-place r [] h hs = (h, tt)
  All-place r (s ∷ rs) h (k, ks) = elim (Bool-cases (before r s)) [
    | inl e ↦ rw e (h, (k, ks))
    | inr e ↦ rw e (k, All-place r rs h ks)
  ]

  pub All-order_by : (rs : List A) → All P rs → All P (order_by before rs)
  unfolding order_by
  All-order_by [] h = tt
  All-order_by (r ∷ rs) (h, hs) = All-place r (order_by before rs) h (All-order_by rs hs)

module _ {ℓ} {A : Type ℓ} (before : A → A → Bool) where
  -- No row comes before one that stands ahead of it.
  abbrev pub Sorted : List A → Type 0
  Sorted [] = Unit
  Sorted (r ∷ rs) = All (λ s. before s r ≡ false) rs × Sorted rs

  -- What a comparison of sort keys satisfies.
  pub record IsOrder : Type ℓ where
    pub asym : (r s : A) → before r s ≡ true → before s r ≡ false
    pub trans : (r s t : A) → before s r ≡ false → before t s ≡ false → before t r ≡ false

  module _ (order : IsOrder) where
    place-Sorted : (r : A) (rs : List A) → Sorted rs → Sorted (place before r rs)
    unfolding place
    place-Sorted r [] h = (tt, tt)
    place-Sorted r (s ∷ rs) (hs, h) = elim (Bool-cases (before r s)) [
      | inl e ↦ rw e (
        (
          order.asym r s e,
          All-mono (λ t. before t s ≡ false) (λ t. before t r ≡ false)
              (λ t k. order.trans r s t (order.asym r s e) k) rs hs,
        ),
        (hs, h),
      )
      | inr e ↦ rw e (All-place (λ t. before t s ≡ false) before r rs e hs, place-Sorted r rs h)
    ]

    pub order_by-Sorted : (rs : List A) → Sorted (order_by before rs)
    unfolding order_by
    order_by-Sorted [] = tt
    order_by-Sorted (r ∷ rs) = place-Sorted r (order_by before rs) (order_by-Sorted rs)

module _ {ℓ} {A : Type ℓ} (p : A → Bool) (before : A → A → Bool) where
  count-place :
      (r : A) (rs : List A) → count p (place before r rs) ≡ (if p r then 1 else 0) + count p rs
  unfolding place count
  count-place r [] = refl
  count-place r (s ∷ rs) = ground (arith, count-place r rs)

  pub count-order_by : (rs : List A) → count p (order_by before rs) ≡ count p rs
  unfolding order_by count
  count-order_by [] = refl
  count-order_by (r ∷ rs) = omega (arith, count-place r (order_by before rs), count-order_by rs)

module _ {ℓ} {A : Type ℓ} (p w : A → Bool) (f : A → A) where
  -- An update that spends its rows takes them out of the count.
  pub count-update_spend :
      ((r : A) → w r ≡ true → p (f r) ≡ false)
      → (rs : List A) → count p (update_rows w f rs) + count (λ r. p r && w r) rs ≡ count p rs
  unfolding count update_rows
  count-update_spend h [] = omega arith
  count-update_spend h (r ∷ rs) = ground (arith, h r, count-update_spend h rs)

module _ {ℓ} {A : Type ℓ} (before : A → A → Bool) (p : A → Bool) (order : IsOrder before) where
  first_at :
      (x : A) (rs : List A)
      → Sorted before (x ∷ rs)
      → All (λ s. before s x ≡ true → p s ≡ false) (x ∷ rs)
  first_at x rs (hs, h) = (
    (λ e. absurd (true-ne-false (sym e ∙ order.asym x x e))),
    All-mono (λ s. before s x ≡ false) (λ s. before s x ≡ true → p s ≡ false)
        (λ s k e. absurd (true-ne-false (sym e ∙ k))) rs hs,
  )

  -- Every row ahead of the first one that passes fails.
  pub first-Sorted :
      (rs : List A) (r : A)
      → Sorted before rs
      → first p rs ≡ some r
      → All (λ s. before s r ≡ true → p s ≡ false) rs
  first-Sorted [] r h e = tt
  first-Sorted (x ∷ rs) r (hs, h) e = elim (Bool-cases (p x)) [
    | inl passes ↦
        subst (λ y. All (λ s. before s y ≡ true → p s ≡ false) (x ∷ rs))
          (first-head p x rs r passes e) (first_at x rs (hs, h))
    | inr fails ↦ ((λ _. fails), first-Sorted rs r h (first-tail p x rs r fails e))
  ]
