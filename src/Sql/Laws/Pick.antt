-- ===== src/Sql/Laws/Pick.antt =====
-- The one row that a SELECT … LIMIT 1 gives.
use running_hackathon.Prelude.{
  ◌<◌, ◌≤◌, ◌≡◌, refl, Bool, true, false, ◌&&◌, Option, none, some, List, [], ◌∷◌, ◌++◌, arith,
  if◌then◌else◌, All, Bool-cases, ◌⊎◌, inl, inr,
}
use mathlib.Core.Path.{subst, sym}
use running_hackathon.Sql.{better, update_rows, count, first, top}

none-ne-some {ℓ} : {A : Type ℓ} {a : A} → none ≡ some a → ⊥
none-ne-some e = cc

module _ {ℓ} {A : Type ℓ} (before : A → A → Bool) (p : A → Bool) where
  -- What ORDER BY … LIMIT 1 returns passes the WHERE clause.
  pub top-passes : (rs : List A) (r : A) → top before p rs ≡ some r → p r ≡ true
  unfolding top
  top-passes [] r e = cc
  top-passes (x ∷ rs) r e = ground (arith, top-passes rs r)

  -- A row that fails the WHERE clause changes nothing.
  pub top-append_other :
      (rs : List A) (r : A) → p r ≡ false → top before p (rs ++ r ∷ []) ≡ top before p rs
  unfolding top
  top-append_other [] r e = ground arith
  top-append_other (x ∷ rs) r e = rw (top-append_other rs r e) refl

  pub top_of_none : (rs : List A) → count p rs ≡ 0 → top before p rs ≡ none
  unfolding top count
  top_of_none [] h = refl
  top_of_none (x ∷ rs) h = ground (arith, top_of_none rs)

  pub none_of_top : (rs : List A) → top before p rs ≡ none → count p rs ≡ 0
  unfolding top count
  none_of_top [] h = refl
  none_of_top (x ∷ rs) h = ground (arith, none_of_top rs)

  -- The only row that passes is the one returned.
  pub top-last :
      (rs : List A) (r : A) → count p rs ≡ 0 → p r ≡ true → top before p (rs ++ r ∷ []) ≡ some r
  unfolding top count
  top-last [] r h e = ground arith
  top-last (x ∷ rs) r h e = ground (arith, top-last rs r)

  better-cases :
      (x : A) (o : Option A) (r : A) → some (better before x o) ≡ some r → (x ≡ r) ⊎ (o ≡ some r)
  unfolding better
  better-cases x none r e = inl (cc)
  better-cases x (some s) r e = ground arith

  pub top-cases :
      (x : A) (rs : List A) (r : A)
      → top before p (x ∷ rs) ≡ some r
      → (x ≡ r) ⊎ (top before p rs ≡ some r)
  unfolding top
  top-cases x rs r e = elim (Bool-cases (p x)) [
    | inl h ↦ better-cases x (top before p rs) r (rw h at e)
    | inr h ↦ inr (rw h at e)
  ]

module _ {ℓ κ} {A : Type ℓ} (P : A → Type κ) (before : A → A → Bool) (p : A → Bool) where
  -- A property of every row is one of the row returned.
  pub top-All : (rs : List A) (r : A) → All P rs → top before p rs ≡ some r → P r
  top-All [] r h e = unfold top in absurd (none-ne-some e)
  top-All (x ∷ rs) r (hx, hs) e = elim (top-cases before p x rs r e) [
    | inl same ↦ subst P same hx
    | inr later ↦ top-All rs r hs later
  ]

module _ {ℓ} {A : Type ℓ} (before : A → A → Bool) (p w : A → Bool) (f : A → A)
    (spent : (r : A) → w r ≡ true → p (f r) ≡ false) where
  count-update-le : (rs : List A) → count p (update_rows w f rs) ≤ count p rs
  unfolding count update_rows
  count-update-le [] = omega arith
  count-update-le (x ∷ rs) = ground (arith, spent x, count-update-le rs)

  count-update_here :
      (x : A) (rs : List A)
      → p x ≡ true
      → w x ≡ true
      → count p (update_rows w f (x ∷ rs)) < count p (x ∷ rs)
  unfolding count update_rows
  count-update_here x rs px wx = ground (arith, spent x, count-update-le rs)

  count-update_later :
      (x : A) (rs : List A)
      → count p (update_rows w f rs) < count p rs
      → count p (update_rows w f (x ∷ rs)) < count p (x ∷ rs)
  unfolding count update_rows
  count-update_later x rs h = ground (arith, spent x)

  -- An update that spends the row of an ORDER BY … LIMIT 1 leaves fewer rows that pass.
  pub count-update_lt :
      (rs : List A) (c : A)
      → top before p rs ≡ some c
      → w c ≡ true
      → count p (update_rows w f rs) < count p rs
  count-update_lt [] c e wc = unfold top in absurd (none-ne-some e)
  count-update_lt (x ∷ rs) c e wc = elim (top-cases before p x rs c e) [
    | inl same ↦
        count-update_here x rs
          (subst (λ r. p r ≡ true) (sym same) (top-passes before p (x ∷ rs) c e))
          (subst (λ r. w r ≡ true) (sym same) wc)
    | inr later ↦ count-update_later x rs (count-update_lt rs c later wc)
  ]

module _ {ℓ} {A : Type ℓ} (p : A → Bool) where
  pub first-passes : (rs : List A) (r : A) → first p rs ≡ some r → p r ≡ true
  unfolding first
  first-passes [] r e = cc
  first-passes (x ∷ rs) r e = ground (arith, first-passes rs r)

  pub first-head : (x : A) (rs : List A) (r : A) → p x ≡ true → first p (x ∷ rs) ≡ some r → x ≡ r
  unfolding first
  first-head x rs r h e = ground arith

  pub first-tail :
      (x : A) (rs : List A) (r : A) → p x ≡ false → first p (x ∷ rs) ≡ some r → first p rs ≡ some r
  unfolding first
  first-tail x rs r h e = ground arith

  first-cases :
      (x : A) (rs : List A) (r : A) → first p (x ∷ rs) ≡ some r → (x ≡ r) ⊎ (first p rs ≡ some r)
  unfolding first
  first-cases x rs r e = ground arith

module _ {ℓ κ} {A : Type ℓ} (P : A → Type κ) (p : A → Bool) where
  pub first-All : (rs : List A) (r : A) → All P rs → first p rs ≡ some r → P r
  first-All [] r h e = unfold first in absurd (none-ne-some e)
  first-All (x ∷ rs) r (hx, hs) e = elim (first-cases p x rs r e) [
    | inl same ↦ subst P same hx
    | inr later ↦ first-All rs r hs later
  ]

module _ {ℓ} {A : Type ℓ} (p : A → Bool) where
  pub first-last :
      (rs : List A) (r : A) → count p rs ≡ 0 → p r ≡ true → first p (rs ++ r ∷ []) ≡ some r
  unfolding first count
  first-last [] r h e = ground arith
  first-last (x ∷ rs) r h e = ground (arith, first-last rs r)

module _ {ℓ} {A : Type ℓ} (before : A → A → Bool) (p : A → Bool) where
  -- A row that comes before every other one that passes.
  pub top-newest :
      (rs : List A) (r : A)
      → p r ≡ true
      → All (λ x. p x ≡ true → before r x ≡ true) rs
      → top before p (rs ++ r ∷ []) ≡ some r
  unfolding top
  top-newest [] r h k = ground arith
  top-newest (x ∷ rs) r h (k, ks) = ground (arith, k, top-newest rs r h ks)

module _ {ℓ} {A : Type ℓ} (p : A → Bool) (f : A → A) where
  pub first-update :
      ((r : A) → p r ≡ true → p (f r) ≡ true)
      → (rs : List A) (r : A) → first p rs ≡ some r
      → first p (update_rows p f rs) ≡ some (f r)
  unfolding first update_rows
  first-update h [] r e = absurd (none-ne-some e)
  first-update h (x ∷ rs) r e = ground (arith, h x, first-update h rs r)

  pub first-update_none : (rs : List A) → first p rs ≡ none → first p (update_rows p f rs) ≡ none
  unfolding first update_rows
  first-update_none [] e = refl
  first-update_none (x ∷ rs) e = ground (arith, first-update_none rs)

module _ {ℓ} {A : Type ℓ} (p q : A → Bool) where
  no_more : (rs : List A) → count p rs ≡ 0 → count (λ r. p r && q r) rs ≡ 0
  unfolding count
  no_more [] h = refl
  no_more (x ∷ rs) h = ground (arith, no_more rs)

  -- Where at most one row passes, a further test counts the row found.
  pub count-first :
      (rs : List A) (u : A)
      → count p rs ≤ 1
      → first p rs ≡ some u
      → count (λ r. p r && q r) rs ≡ (if q u then 1 else 0)
  unfolding count first
  count-first [] u h e = absurd (none-ne-some e)
  count-first (x ∷ rs) u h e = ground (arith, count-first rs u, no_more rs)
