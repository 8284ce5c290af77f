-- ===== src/Transcripts/Owned.antt =====
-- Nobody sees or deletes the call of somebody else, and no page is long.
use running_hackathon.Prelude.{
  ℕ, ◌≤◌, sym, String, Bool, true, false, ◌&&◌, ◌||◌, not, ◌≡◌, ◌≢◌, ◌⊎◌, refl, ap, str_eq, eq_iff,
  Option, some, none, List, [], ◌∷◌, arith, length, take, drop, All, All-mono, ◌==◌, Bool-cases,
  inl, inr, zero, suc,
}
use running_hackathon.Sql
use running_hackathon.Sql.Laws.{All-select, select-delete_same}
use running_hackathon.Sql.Order.{All-order_by}
use running_hackathon.Db.{Transcript, Store}
use running_hackathon.Users.{phone_of_user, is_phone}
use running_hackathon.Transcripts.{
  is_owned, newer_call, page_size, mentions, found, transcripts, is_call_of, transcript,
  delete_transcript,
}

module _ {ℓ κ} {A : Type ℓ} (P : A → Type κ) where
  All-take : (n : ℕ) (xs : List A) → All P xs → All P (take n xs)
  All-take zero xs a = tt
  All-take (suc n) [] a = tt
  All-take (suc n) (x ∷ xs) (p, ps) = (p, All-take n xs ps)

  All-drop : (n : ℕ) (xs : List A) → All P xs → All P (drop n xs)
  All-drop zero xs a = a
  All-drop (suc n) [] a = tt
  All-drop (suc n) (x ∷ xs) (p, ps) = All-drop n xs ps

length-take-le {ℓ} : {A : Type ℓ} (n : ℕ) (xs : List A) → length (take n xs) ≤ n
length-take-le zero xs = omega arith
length-take-le (suc n) [] = omega arith
length-take-le (suc n) (x ∷ xs) = omega (arith, length-take-le n xs)

page_size-le : (limit : ℕ) → page_size limit ≤ 100
page_size-le limit = ground arith

All-rows : (rs : List Transcript) → All (λ (t : Transcript). t ≡ t) rs
All-rows [] = tt
All-rows (r ∷ rs) = (refl, All-rows rs)

both : (a b : Bool) → (a && b) ≡ true → a ≡ true
both true b h = refl
both false b h = h

-- Whose a call is: it is attached to the profile, or to none and has the number that the profile's row has.
abbrev pub IsCallOf : ℕ → Store → Transcript → Type 0
IsCallOf user_id s t =
    ((t.user_id ≢ 0) × (t.user_id ≡ user_id))
    ⊎ ((t.user_id ≡ 0) × (t.phone ≢ "") × (phone_of_user user_id s ≡ some t.phone))

is_phone-same : (o : Option String) (phone : String) → is_phone o phone ≡ true → o ≡ some phone
is_phone-same none phone h = cc
is_phone-same (some p) phone h = ap (λ (x : String). some x) (sameness p phone h)
  where
    sameness : (p phone : String) → is_phone (some p) phone ≡ true → p ≡ phone
    sameness p phone h = ground (arith, eq_iff p phone, eq_iff phone p)

own_branch :
    (user_id : ℕ) (t : Transcript) (under : Bool)
    → ((not (t.user_id == 0) && (t.user_id == user_id))
        || ((t.user_id == 0) && not (str_eq t.phone "") && under))
      ≡ true
    → ((t.user_id ≢ 0) × (t.user_id ≡ user_id))
      ⊎ ((t.user_id ≡ 0) × (t.phone ≢ "") × (under ≡ true))
own_branch user_id t under h = elim (Bool-cases (t.user_id == 0)) [
  | inl unowned ↦ inr (ground arith, blank (ground arith), ground arith)
  | inr attached ↦ inl (ground arith, ground arith)
]
  where
    blank : str_eq t.phone "" ≡ false → t.phone ≢ ""
    blank k e = ground (arith, eq_iff t.phone "")

is_owned-IsCallOf :
    (user_id : ℕ) (s : Store) (t : Transcript)
    → is_owned user_id (phone_of_user user_id s) t ≡ true
    → IsCallOf user_id s t
unfolding is_owned
is_owned-IsCallOf user_id s t h =
    elim (own_branch user_id t (is_phone (phone_of_user user_id s) t.phone) h) [
      | inl attached ↦ inl attached
      | inr (unowned, numbered, under) ↦
          inr (unowned, numbered, is_phone-same (phone_of_user user_id s) t.phone under)
    ]

-- A page of somebody's calls holds a hundred calls at most, each of which is attached to their profile, or is
-- attached to none and has, as a number that is not empty, the number that the profile's row has.
pub transcripts-owned :
    (like : String → String → Bool) (user_id : ℕ) (query : String) (limit offset : ℕ) (s : Store)
    → All (IsCallOf user_id s) (transcripts like user_id query limit offset s).0
      × (length (transcripts like user_id query limit offset s).0 ≤ 100)
unfolding transcripts
transcripts-owned like user_id query limit offset s =
    let rows = Sql.select (found like user_id query s) s.transcripts.rows in
    let sorted = Sql.order_by newer_call rows in
    (
      All-take (IsCallOf user_id s) (page_size limit) (drop offset sorted) (
          All-drop (IsCallOf user_id s) offset sorted (
            All-order_by (IsCallOf user_id s) newer_call rows (
              All-mono (λ t. (t ≡ t) × (found like user_id query s t ≡ true)) (IsCallOf user_id s)
                (λ t h.
                  is_owned-IsCallOf user_id s t (
                    both (is_owned user_id (phone_of_user user_id s) t) (mentions like query t)
                      h.1))
                rows
                (All-select (λ t. t ≡ t) (found like user_id query s) s.transcripts.rows
                  (All-rows s.transcripts.rows))))),
      omega (arith, length-take-le (page_size limit) (drop offset sorted), page_size-le limit),
    )

not_mine : (a b : Bool) → not b ≡ true → (a && b) ≡ false
not_mine true true h = sym h
not_mine true false h = refl
not_mine false b h = refl

first-delete {ℓ} :
    {A : Type ℓ} (p : A → Bool) (rs : List A) → Sql.first p (Sql.delete_rows p rs) ≡ none
unfolding Sql.first Sql.delete_rows
first-delete p [] = refl
first-delete p (r ∷ rs) = elim (Bool-cases (p r)) [
  | inl e ↦ rw e (first-delete p rs)
  | inr e ↦ rw e (rw e (first-delete p rs))
]

-- Deleting a call leaves every call that the deleter does not own exactly where it was, and what is deleted
-- is found no more.
pub delete_transcript-foreign :
    (user_id id : ℕ) (s : Store)
    → (Sql.select
          (λ t. not (is_owned user_id (phone_of_user user_id s) t))
          (delete_transcript user_id id s).1.transcripts.rows
        ≡ Sql.select (λ t. not (is_owned user_id (phone_of_user user_id s) t)) s.transcripts.rows)
      × (transcript user_id id (delete_transcript user_id id s).1 ≡ none)
unfolding delete_transcript transcript phone_of_user Sql.delete
delete_transcript-foreign user_id id s = (
  select-delete_same (λ t. not (is_owned user_id (phone_of_user user_id s) t))
      (is_call_of user_id id s)
      (λ t h. not_mine (t.id == id) (is_owned user_id (phone_of_user user_id s) t) h)
      s.transcripts.rows,
  first-delete (is_call_of user_id id s) s.transcripts.rows,
)
