-- ===== src/Users/Identity.antt =====
-- A person is a number: one profile for each, and what proving the number does.
use mathlib.Core.Path.{subst}
use running_hackathon.Prelude.{
  ℕ, ◌+◌, ◌≤◌, String, true, false, ◌≡◌, refl, sym, Option, none, some, arith, str_eq, eq_iff,
  eq_refl, if◌then◌else◌, Bool-cases, Option-cases, inl, inr,
}
use running_hackathon.Clock.{Time}
use running_hackathon.Sql
use running_hackathon.Sql.Laws.{
  count-snoc, count-update_eq, first-last, none_of_first, first-passes,
}
use running_hackathon.Db.{User, Store}
use running_hackathon.Users.{
  has_phone, has_id, user_by_phone, new_user, create_user, kept_interests, upsert_found,
  upsert_user, stranger, ensure_found, ensure_user,
}

abbrev pub profiles : String → Store → ℕ
profiles phone s = Sql.count (has_phone phone) s.users.rows

create_step :
    (phone : String) (u : User) (now : Time) (s : Store)
    → profiles phone (create_user u now s).1
      ≡ profiles phone s + (if str_eq u.phone phone then 1 else 0)
unfolding create_user Sql.insert
create_step phone u now s =
    count-snoc (has_phone phone) s.users.rows (new_user u now s.users.next_id)

create_missing :
    (phone : String) (u : User) (now : Time) (s : Store)
    → user_by_phone u.phone s ≡ none
    → profiles phone s ≤ 1
    → profiles phone (create_user u now s).1 ≤ 1
create_missing phone u now s missing h = elim (Bool-cases (str_eq u.phone phone)) [
  | inl same ↦
      let none_here =
        subst (λ (p : String). profiles p s ≡ 0) ((eq_iff u.phone phone).0 same)
          (unfold user_by_phone in none_of_first (has_phone u.phone) s.users.rows missing) in
      grown same none_here (create_step phone u now s)
  | inr other ↦ kept other (create_step phone u now s)
]
  where
    grown :
        str_eq u.phone phone ≡ true
        → profiles phone s ≡ 0
        → profiles phone (create_user u now s).1
          ≡ profiles phone s + (if str_eq u.phone phone then 1 else 0)
        → profiles phone (create_user u now s).1 ≤ 1
    grown same zero_here e = ground arith

    kept :
        str_eq u.phone phone ≡ false
        → profiles phone (create_user u now s).1
          ≡ profiles phone s + (if str_eq u.phone phone then 1 else 0)
        → profiles phone (create_user u now s).1 ≤ 1
    kept other e = ground arith

-- A sign-up gives no number a second profile: a number with at most one profile has at most one after
-- it.
pub upsert_user-one :
    (phone : String) (u : User) (now : Time) (s : Store)
    → profiles phone s ≤ 1
    → profiles phone (upsert_user u now s).1 ≤ 1
unfolding upsert_user upsert_found Sql.update
upsert_user-one phone u now s h = elim (Option-cases (user_by_phone u.phone s)) [
  | inl missing ↦ rw missing (create_missing phone u now s missing h)
  | inr (old, found) ↦ rw found (
      subst (λ n. n ≤ 1)
        (sym (
          count-update_eq (has_phone phone) (has_id old.id)
            (λ r. record r {
              name = u.name;
              channel = u.channel;
              frequency = u.frequency;
              ics_url = u.ics_url;
              interests = kept_interests u old;
            })
            (λ r e. refl) s.users.rows))
        h)
]

ensure_by :
    (o : Option User) (phone : String) (now : Time) (s : Store)
    → user_by_phone phone s ≡ o
    → ensure_user phone now s ≡ ensure_found o phone now s
unfolding ensure_user
ensure_by o phone now s h = rw h refl

phone_is :
    (u : User) (phone : String) (s : Store) → user_by_phone phone s ≡ some u → u.phone ≡ phone
unfolding user_by_phone
phone_is u phone s h = (eq_iff u.phone phone).0 (first-passes (has_phone phone) s.users.rows u h)

created_found :
    (phone : String) (now : Time) (s : Store)
    → user_by_phone phone s ≡ none
    → user_by_phone phone (create_user (stranger phone) now s).1
      ≡ some (new_user (stranger phone) now s.users.next_id)
unfolding user_by_phone create_user Sql.insert
created_found phone now s h =
    first-last (has_phone phone) s.users.rows (new_user (stranger phone) now s.users.next_id)
      (none_of_first (has_phone phone) s.users.rows h) (eq_refl phone)

-- A number that texts in gets one profile: the first message makes it, every later one finds the same.
pub ensure_user-again :
    (phone : String) (now later : Time) (s : Store)
    → (u : User) × ((ensure_user phone now s).0 ≡ some u)
      × (u.phone ≡ phone)
      × (ensure_user phone later (ensure_user phone now s).1
          ≡ (some u, (ensure_user phone now s).1))
unfolding ensure_found
ensure_user-again phone now later s = elim (Option-cases (user_by_phone phone s)) [
  | inr (u, found) ↦
      let once = ensure_by (some u) phone now s found in
      rw once (u, refl, phone_is u phone s found, ensure_by (some u) phone later s found)
  | inl missing ↦
      let once = ensure_by none phone now s missing in
      let s' = (create_user (stranger phone) now s).1 in
      let u = new_user (stranger phone) now s.users.next_id in
      let found = created_found phone now s missing in
      rw once (u, found, refl, ensure_by (some u) phone later s' found)
]

-- A number that is known is not written again.
pub ensure_user-known :
    (phone : String) (now : Time) (s : Store) (u : User)
    → user_by_phone phone s ≡ some u
    → ensure_user phone now s ≡ (some u, s)
unfolding ensure_user ensure_found
ensure_user-known phone now s u h = rw h refl
