-- ===== src/Sql/Laws/Rows.antt =====
-- What holds of every row, and what a SELECT gives.
use running_hackathon.Prelude.{
  ℕ, ◌≡◌, refl, Bool, true, false, none, List, [], ◌∷◌, ◌++◌, arith, ◌==◌, All, All-append,
  Bool-cases, inl, inr,
}
use running_hackathon.Sql.{
  Table, insert, update_rows, insert_ignore, delete_rows, select, count, first,
}

module _ {ℓ κ} {A : Type ℓ} (P Q : A → Type κ) (w : A → Bool) (f : A → A) where
  pub All-update :
      ((r : A) → P r → w r ≡ true → Q (f r))
      → ((r : A) → P r → w r ≡ false → Q r)
      → (rs : List A) → All P rs
      → All Q (update_rows w f rs)
  unfolding update_rows
  All-update h k [] a = tt
  All-update h k (r ∷ rs) (pr, prs) = elim (Bool-cases (w r)) [
    | inl e ↦ rw e (h r pr e, All-update h k rs prs)
    | inr e ↦ rw e (k r pr e, All-update h k rs prs)
  ]

module _ {ℓ κ} {A : Type ℓ} (P : A → Type κ) (w : A → Bool) where
  pub All-delete : (rs : List A) → All P rs → All P (delete_rows w rs)
  unfolding delete_rows
  All-delete [] a = tt
  All-delete (r ∷ rs) (pr, prs) = elim (Bool-cases (w r)) [
    | inl e ↦ rw e (All-delete rs prs)
    | inr e ↦ rw e (pr, All-delete rs prs)
  ]

  -- What a SELECT returns passes its WHERE clause, and is a row of the table.
  pub All-select : (rs : List A) → All P rs → All (λ r. P r × (w r ≡ true)) (select w rs)
  unfolding select
  All-select [] a = tt
  All-select (r ∷ rs) (pr, prs) = elim (Bool-cases (w r)) [
    | inl e ↦ rw e ((pr, e), All-select rs prs)
    | inr e ↦ rw e (All-select rs prs)
  ]

  -- What a DELETE leaves fails its WHERE clause.
  pub All-delete_fails :
      (rs : List A) → All P rs → All (λ r. P r × (w r ≡ false)) (delete_rows w rs)
  unfolding delete_rows
  All-delete_fails [] a = tt
  All-delete_fails (r ∷ rs) (pr, prs) = elim (Bool-cases (w r)) [
    | inl e ↦ rw e (All-delete_fails rs prs)
    | inr e ↦ rw e ((pr, e), All-delete_fails rs prs)
  ]

module _ {ℓ κ} {A : Type ℓ} (Q : A → Type κ) (w : A → Bool) (f : A → A) where
  pub All-update_each :
      ((r : A) → w r ≡ true → Q (f r))
      → ((r : A) → w r ≡ false → Q r)
      → (rs : List A) → All Q (update_rows w f rs)
  unfolding update_rows
  All-update_each h k [] = tt
  All-update_each h k (r ∷ rs) = elim (Bool-cases (w r)) [
    | inl e ↦ rw e (h r e, All-update_each h k rs)
    | inr e ↦ rw e (k r e, All-update_each h k rs)
  ]

module _ {ℓ} {A : Type ℓ} (w : A → Bool) where
  -- A DELETE of the last row alone.
  pub delete_last :
      (rs : List A) (r : A) → count w rs ≡ 0 → w r ≡ true → delete_rows w (rs ++ r ∷ []) ≡ rs
  unfolding delete_rows count
  delete_last [] r h e = ground arith
  delete_last (x ∷ rs) r h e = ground (arith, delete_last rs r)

module _ {ℓ} {A : Type ℓ} (p : A → Bool) where
  pub select-append : (xs ys : List A) → select p (xs ++ ys) ≡ select p xs ++ select p ys
  unfolding select
  select-append [] ys = refl
  select-append (x ∷ xs) ys = ground (arith, select-append xs ys)

  pub select-append_other :
      (rs : List A) (r : A) → p r ≡ false → select p (rs ++ r ∷ []) ≡ select p rs
  unfolding select
  select-append_other [] r e = ground arith
  select-append_other (x ∷ rs) r e = rw (select-append_other rs r e) refl

  pub select-none : (rs : List A) → count p rs ≡ 0 → select p rs ≡ []
  unfolding select count
  select-none [] h = refl
  select-none (x ∷ rs) h = ground (arith, select-none rs)

  pub none_of_first : (rs : List A) → first p rs ≡ none → count p rs ≡ 0
  unfolding first count
  none_of_first [] h = refl
  none_of_first (x ∷ rs) h = ground (arith, none_of_first rs)

module _ {ℓ κ} {A : Type ℓ} (P : A → Type κ) (same_key : A → Bool) (row : ℕ → A) (t : Table A) where
  pub All-insert_ignore :
      P (row t.next_id) → All P t.rows → All P (insert_ignore same_key row t).rows
  unfolding insert_ignore insert
  All-insert_ignore h hs = elim (Bool-cases (count same_key t.rows == 0)) [
    | inl e ↦ rw e (All-append P t.rows (row t.next_id ∷ []) hs (h, tt))
    | inr e ↦ rw e hs
  ]

module _ {ℓ} {A : Type ℓ} (p w : A → Bool) where
  -- A DELETE leaves the rows of a SELECT whose rows it does not match.
  pub select-delete_same :
      ((r : A) → p r ≡ true → w r ≡ false)
      → (rs : List A) → select p (delete_rows w rs) ≡ select p rs
  unfolding select delete_rows
  select-delete_same h [] = refl
  select-delete_same h (r ∷ rs) = ground (arith, h r, select-delete_same h rs)
