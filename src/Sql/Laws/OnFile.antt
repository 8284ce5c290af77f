-- ===== src/Sql/Laws/OnFile.antt =====
-- Rows that a table holds: what an UPDATE makes of them, and what it leaves.
use running_hackathon.Prelude.{
  ◌≡◌, refl, some, Bool, true, false, List, [], ◌∷◌, arith, All, All-mono, ◌⊎◌, inl, inr,
}
use running_hackathon.Sql.{update_rows, select, top}
use running_hackathon.Sql.Laws.Pick.{top-All}

module _ {A : Type 0} (x : A) where
  -- `x` is one of the rows.
  abbrev pub Stored : List A → Type 0
  Stored [] = ⊥
  Stored (y ∷ ys) = (y ≡ x) ⊎ Stored ys

module _ {A : Type 0} where
  pub All-Stored : (rs : List A) → All (λ r. Stored r rs) rs
  All-Stored [] = tt
  All-Stored (r ∷ rs) =
      (inl refl, All-mono (λ x. Stored x rs) (λ x. Stored x (r ∷ rs)) (λ x. inr) rs (All-Stored rs))

  -- What ORDER BY … LIMIT 1 returns is a row of the table.
  pub top-Stored :
      (before : A → A → Bool) (p : A → Bool) (rs : List A) (r : A)
      → top before p rs ≡ some r
      → Stored r rs
  top-Stored before p rs r e = top-All (λ x. Stored x rs) before p rs r (All-Stored rs) e

  pub update-Stored :
      (w : A → Bool) (f : A → A) (x : A) (rs : List A)
      → w x ≡ true
      → Stored x rs
      → Stored (f x) (update_rows w f rs)
  unfolding update_rows
  update-Stored w f x [] h s = s
  update-Stored w f x (r ∷ rs) h (inl same) = inl (rw (same, h) refl)
  update-Stored w f x (r ∷ rs) h (inr s) = inr (update-Stored w f x rs h s)

  -- An UPDATE leaves the rows of a SELECT that finds none of its rows, before or after.
  pub select-update_same :
      (p w : A → Bool) (f : A → A)
      → ((r : A) → w r ≡ true → p r ≡ false)
      → ((r : A) → w r ≡ true → p (f r) ≡ false)
      → (rs : List A) → select p (update_rows w f rs) ≡ select p rs
  unfolding select update_rows
  select-update_same p w f h k [] = refl
  select-update_same p w f h k (r ∷ rs) = ground (arith, h r, k r, select-update_same p w f h k rs)
