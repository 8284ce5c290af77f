-- ===== src/Sql.antt =====
-- The statements that the store sends to its database, over one table: a list of rows in the order of
-- insertion, and the next value of the primary key. A WHERE clause is a Boolean test on a row.
pub mod Laws
pub mod Order
use running_hackathon.Prelude.{
  ℕ, zero, suc, ◌+◌, Bool, true, false, Option, none, some, List, [], ◌∷◌, ◌++◌, ◌==◌,
  if◌then◌else◌,
}

pub record Table {ℓ} (A : Type ℓ) : Type ℓ where
  pub rows : List A
  pub next_id : ℕ

module _ {ℓ} {A : Type ℓ} where
  -- The keys start at 1: 0 stands for "no row" in the Go structs.
  abbrev pub empty : Table A
  empty = record { rows = []; next_id = 1 }

  -- INSERT of one row, which gets the next key.
  unfoldable pub insert : (ℕ → A) → Table A → Table A
  insert row t = record { rows = t.rows ++ row t.next_id ∷ []; next_id = t.next_id + 1 }

  unfoldable pub update_rows : (A → Bool) → (A → A) → List A → List A
  update_rows p f [] = []
  update_rows p f (r ∷ rs) = (if p r then f r else r) ∷ update_rows p f rs

  -- UPDATE … SET … WHERE p
  unfoldable pub update : (A → Bool) → (A → A) → Table A → Table A
  update p f t = record t { rows = update_rows p f t.rows }

  unfoldable pub delete_rows : (A → Bool) → List A → List A
  delete_rows p [] = []
  delete_rows p (r ∷ rs) = let rest = delete_rows p rs in if p r then rest else r ∷ rest

  -- DELETE … WHERE p
  unfoldable pub delete : (A → Bool) → Table A → Table A
  delete p t = record t { rows = delete_rows p t.rows }

  -- SELECT * … WHERE p
  unfoldable pub select : (A → Bool) → List A → List A
  select p [] = []
  select p (r ∷ rs) = let rest = select p rs in if p r then r ∷ rest else rest

  -- SELECT COUNT(*) … WHERE p; also the rows that an UPDATE or a DELETE with that WHERE affects.
  unfoldable pub count : (A → Bool) → List A → ℕ
  count p [] = 0
  count p (r ∷ rs) = (if p r then 1 else 0) + count p rs

  -- The first row of those with `p`, in the order of insertion.
  unfoldable pub first : (A → Bool) → List A → Option A
  first p [] = none
  first p (r ∷ rs) = let rest = first p rs in if p r then some r else rest

  better : (A → A → Bool) → A → Option A → A
  better before r none = r
  better before r (some s) = if before s r then s else r

  -- ORDER BY … LIMIT 1: `before s r` says that `s`, which was inserted after `r`, comes before it.
  unfoldable pub top : (A → A → Bool) → (A → Bool) → List A → Option A
  unfolding better
  top before p [] = none
  top before p (r ∷ rs) =
      let rest = top before p rs in if p r then some (better before r rest) else rest

  -- Where a row goes among rows in order: behind every row that it does not come before.
  unfoldable pub place : (A → A → Bool) → A → List A → List A
  place before r [] = r ∷ []
  place before r (s ∷ rs) =
      let rest = place before r rs in if before r s then r ∷ s ∷ rs else s ∷ rest

  -- ORDER BY of rows listed from the last to the first: rows of which neither comes before the other
  -- keep the order in which the list is read from its end.
  unfoldable pub order_by : (A → A → Bool) → List A → List A
  unfolding place
  order_by before [] = []
  order_by before (r ∷ rs) = place before r (order_by before rs)

  -- INSERT … ON CONFLICT DO NOTHING: no row is added where one has the same unique key.
  unfoldable pub insert_ignore : (A → Bool) → (ℕ → A) → Table A → Table A
  unfolding insert count
  insert_ignore same_key row t = if count same_key t.rows == 0 then insert row t else t
