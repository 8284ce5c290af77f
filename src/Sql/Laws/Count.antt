-- ===== src/Sql/Laws/Count.antt =====
-- How many rows a statement leaves of those that pass a test.
use running_hackathon.Prelude.{
  ℕ, ◌+◌, ◌≤◌, ◌≡◌, refl, Bool, true, false, ◌&&◌, List, [], ◌∷◌, ◌++◌, arith, not, ◌==◌,
  if◌then◌else◌, All,
}
use running_hackathon.Sql.{Table, insert, update_rows, insert_ignore, delete_rows, select, count}

module _ {ℓ} {A : Type ℓ} where
  pub count-append : (p : A → Bool) (xs ys : List A) → count p (xs ++ ys) ≡ count p xs + count p ys
  unfolding count
  count-append p [] ys = omega arith
  count-append p (x ∷ xs) ys = omega (arith, count-append p xs ys)

  pub count-snoc :
      (p : A → Bool) (xs : List A) (r : A)
      → count p (xs ++ r ∷ []) ≡ count p xs + (if p r then 1 else 0)
  unfolding count
  count-snoc p xs r = omega (arith, count-append p xs (r ∷ []))

  -- A test that implies another counts no more rows.
  pub count_mono :
      (p q : A → Bool)
      → ((r : A) → p r ≡ true → q r ≡ true)
      → (rs : List A) → count p rs ≤ count q rs
  unfolding count
  count_mono p q h [] = omega arith
  count_mono p q h (r ∷ rs) = ground (arith, h r, count_mono p q h rs)

  -- An update that leaves a test's answer alone on every row leaves the count alone.
  pub count-update_eq :
      (p w : A → Bool) (f : A → A)
      → ((r : A) → w r ≡ true → p (f r) ≡ p r)
      → (rs : List A) → count p (update_rows w f rs) ≡ count p rs
  unfolding count update_rows
  count-update_eq p w f h [] = refl
  count-update_eq p w f h (r ∷ rs) = ground (arith, h r, count-update_eq p w f h rs)

  -- After an update of every row that passes a test to one that fails it, no row passes.
  pub count-update_zero :
      (p w : A → Bool) (f : A → A)
      → ((r : A) → w r ≡ true → p (f r) ≡ false)
      → ((r : A) → w r ≡ false → p r ≡ false)
      → (rs : List A) → count p (update_rows w f rs) ≡ 0
  unfolding count update_rows
  count-update_zero p w f h k [] = refl
  count-update_zero p w f h k (r ∷ rs) = ground (arith, h r, k r, count-update_zero p w f h k rs)

  pub count-delete_eq :
      (p w : A → Bool)
      → ((r : A) → w r ≡ true → p r ≡ false)
      → (rs : List A) → count p (delete_rows w rs) ≡ count p rs
  unfolding count delete_rows
  count-delete_eq p w h [] = refl
  count-delete_eq p w h (r ∷ rs) = ground (arith, h r, count-delete_eq p w h rs)

  pub count-delete_zero :
      (p w : A → Bool)
      → ((r : A) → p r ≡ true → w r ≡ true)
      → (rs : List A) → count p (delete_rows w rs) ≡ 0
  unfolding count delete_rows
  count-delete_zero p w h [] = refl
  count-delete_zero p w h (r ∷ rs) = ground (arith, h r, count-delete_zero p w h rs)

module _ {ℓ} {A : Type ℓ} (p : A → Bool) where
  head_fails : (x : A) (rs : List A) → count p (x ∷ rs) ≡ 0 → (p x ≡ false) × (count p rs ≡ 0)
  unfolding count
  head_fails x rs h = ground arith

  pub All-of_count-zero : (rs : List A) → count p rs ≡ 0 → All (λ r. p r ≡ false) rs
  All-of_count-zero [] h = tt
  All-of_count-zero (x ∷ rs) h = let (a, b) = head_fails x rs h in (a, All-of_count-zero rs b)

  pub count-zero_of_All : (rs : List A) → All (λ r. p r ≡ false) rs → count p rs ≡ 0
  unfolding count
  count-zero_of_All [] a = refl
  count-zero_of_All (x ∷ rs) (a, rest) = ground (arith, count-zero_of_All rs rest)

module _ {ℓ} {A : Type ℓ} (p w : A → Bool) where
  pub count-update_le :
      (f : A → A)
      → ((r : A) → w r ≡ true → p (f r) ≡ true → p r ≡ true)
      → (rs : List A) → count p (update_rows w f rs) ≤ count p rs
  unfolding count update_rows
  count-update_le f h [] = omega arith
  count-update_le f h (r ∷ rs) = ground (arith, h r, count-update_le f h rs)

  pub count-delete_le : (rs : List A) → count p (delete_rows w rs) ≤ count p rs
  unfolding count delete_rows
  count-delete_le [] = omega arith
  count-delete_le (r ∷ rs) = ground (arith, count-delete_le rs)

module _ {ℓ} {A : Type ℓ} (p w : A → Bool) where
  pub count-delete_same :
      (rs : List A)
      → All (λ r. w r ≡ true → p r ≡ false) rs
      → count p (delete_rows w rs) ≡ count p rs
  unfolding count delete_rows
  count-delete_same [] h = refl
  count-delete_same (r ∷ rs) (h, hs) = ground (arith, h, count-delete_same rs hs)

module _ {ℓ} {A : Type ℓ} (p q : A → Bool) where
  pub count-select : (rs : List A) → count p (select q rs) ≡ count (λ r. q r && p r) rs
  unfolding count select
  count-select [] = refl
  count-select (r ∷ rs) = ground (arith, count-select rs)

  pub count_split :
      (rs : List A) → count (λ r. p r && q r) rs + count (λ r. p r && not (q r)) rs ≡ count p rs
  unfolding count
  count_split [] = omega arith
  count_split (r ∷ rs) = ground (arith, count_split rs)

  pub count-update_all :
      (f : A → A)
      → ((r : A) → q r ≡ true → p (f r) ≡ true)
      → ((r : A) → q r ≡ false → p r ≡ false)
      → (rs : List A) → count p (update_rows q f rs) ≡ count q rs
  unfolding count update_rows
  count-update_all f h k [] = refl
  count-update_all f h k (r ∷ rs) = ground (arith, h r, k r, count-update_all f h k rs)

  pub count-update_none :
      (f : A → A) (rs : List A)
      → All (λ r. q r ≡ true → p (f r) ≡ false) rs
      → ((r : A) → q r ≡ false → p r ≡ false)
      → count p (update_rows q f rs) ≡ 0
  unfolding count update_rows
  count-update_none f [] h k = refl
  count-update_none f (r ∷ rs) (h, hs) k = ground (arith, h, k r, count-update_none f rs hs k)

module _ {ℓ} {A : Type ℓ} (p same_key : A → Bool) (row : ℕ → A) (t : Table A) where
  pub count-insert_ignore :
      count p (insert_ignore same_key row t).rows
      ≡ count p t.rows
        + (if count same_key t.rows == 0 then (if p (row t.next_id) then 1 else 0) else 0)
  unfolding insert_ignore insert
  count-insert_ignore = ground (arith, count-snoc p t.rows (row t.next_id))
