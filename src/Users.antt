-- ===== src/Users.antt =====
-- db.go: the profiles and what the service writes on them.
pub mod Calls
pub mod Identity
use running_hackathon.Prelude.{
  ℕ, ◌+◌, String, Bool, true, false, not, ◌&&◌, ◌||◌, Option, none, some, List, [], ◌∷◌, ◌++◌, ltb,
  ◌==◌, str_eq, if◌then◌else◌, is_some, coalesce,
}
use running_hackathon.Clock.{Time}
use running_hackathon.Outcome.{Result, ok, err, message, unusable_answer}
use running_hackathon.Sql
use running_hackathon.Db.{User, Transcript, ChecklistItem, Store}
use running_hackathon.Str.{trim_space}
use running_hackathon.Interests.{normalise_interests}
use running_hackathon.Checklist.Template.{
  display_name, onboarded, status_unanswered, status_answered,
}
use running_hackathon.Checklist.Replies.{normalise_name, valid_frequency}
use running_hackathon.Checklist.Sessions.{source_profile}

abbrev pub has_phone : String → User → Bool
has_phone phone u = str_eq u.phone phone

abbrev pub has_id : ℕ → User → Bool
has_id id u = u.id == id

unfoldable pub user_by_phone : String → Store → Option User
user_by_phone phone s = Sql.first (has_phone phone) s.users.rows

-- The columns that CreateUser writes; the others are NULL.
abbrev pub new_user : User → Time → ℕ → User
new_user u now id = record u {
  id = id;
  onboarded_at = none;
  last_call_sid = "";
  last_triggered_at = none;
  phone_verified_at = none;
  phone_verified_via = "";
  call_started_at = none;
  created_at = now;
}

-- The profile in memory gets the id of the row.
unfoldable pub create_user : User → Time → Store → User × Store
create_user u now s =
    (record u { id = s.users.next_id }, record s { users = Sql.insert (new_user u now) s.users })

-- UPDATE users SET … WHERE id=?
abbrev pub set_user : ℕ → (User → User) → Store → Store
set_user id f s = record s { users = Sql.update (has_id id) f s.users }

abbrev kept_interests : User → User → String
kept_interests u existing =
    if str_eq (trim_space u.interests) "" then existing.interests else u.interests

upsert_found : Option User → User → Time → Store → User × Store
upsert_found none u now s = create_user u now s
upsert_found (some existing) u now s = (
  record u { id = existing.id; interests = kept_interests u existing },
  set_user existing.id
      (λ r. record r {
        name = u.name;
        channel = u.channel;
        frequency = u.frequency;
        ics_url = u.ics_url;
        interests = kept_interests u existing;
      })
      s,
)

unfoldable pub upsert_user : User → Time → Store → User × Store
unfolding upsert_found
upsert_user u now s = upsert_found (user_by_phone u.phone s) u now s

-- The profile of somebody who texted in.
abbrev pub stranger : String → User
stranger phone = record {
  id = 0;
  phone = phone;
  name = "";
  channel = "sms";
  frequency = "daily";
  ics_url = "";
  interests = "";
  onboarded_at = none;
  last_call_sid = "";
  last_triggered_at = none;
  phone_verified_at = none;
  phone_verified_via = "";
  call_started_at = none;
  created_at = 0;
}

ensure_found : Option User → String → Time → Store → Option User × Store
ensure_found (some u) phone now s = (some u, s)
ensure_found none phone now s =
    let s' = (create_user (stranger phone) now s).1 in (user_by_phone phone s', s')

-- The profile read back; `none` would be an error of the second lookup.
unfoldable pub ensure_user : String → Time → Store → Option User × Store
unfolding ensure_found
ensure_user phone now s = ensure_found (user_by_phone phone s) phone now s

-- transcripts.go, AdoptTranscripts: WHERE user_id IS NULL AND phone = (SELECT phone FROM users WHERE id=?)
unfoldable pub phone_of_user : ℕ → Store → Option String
phone_of_user id s = elim (Sql.first (has_id id) s.users.rows) [
  | none ↦ none
  | some u ↦ some u.phone
]

abbrev pub is_phone : Option String → String → Bool
is_phone none phone = false
is_phone (some p) phone = str_eq phone p

abbrev pub is_unowned : Option String → Transcript → Bool
is_unowned p t = (t.user_id == 0) && is_phone p t.phone

unfoldable pub adopt_transcripts : ℕ → Store → ℕ × Store
adopt_transcripts user_id s =
    let p = phone_of_user user_id s in
    (
      Sql.count (is_unowned p) s.transcripts.rows,
      record s {
        transcripts = Sql.update (is_unowned p) (λ t. record t { user_id = user_id }) s.transcripts;
      },
    )

unfoldable pub mark_phone_verified : ℕ → String → Time → Store → Store
unfolding adopt_transcripts
mark_phone_verified user_id via now s =
    (adopt_transcripts user_id (
      set_user user_id
        (λ u. record u {
          phone_verified_at = coalesce u.phone_verified_at (some now);
          phone_verified_via = via;
        })
        s)).1

-- What SaveOnboarding makes of the three answers.
unfoldable pub learn : String → String → String → User → User
learn name interests frequency u = record u {
  name = if str_eq (normalise_name name) "" then u.name else normalise_name name;
  interests =
      if str_eq (normalise_interests interests) ""
      then u.interests
      else normalise_interests interests;
  frequency = if valid_frequency (trim_space frequency) then trim_space frequency else u.frequency;
}

unfoldable pub missing_fields : User → List String
missing_fields u =
    (if str_eq (display_name u) "" then "name" ∷ [] else [])
    ++ (if str_eq (trim_space u.interests) "" then "event_types" ∷ [] else [])

abbrev pub write_learnt : User → User → User
write_learnt u r = record r { name = u.name; interests = u.interests; frequency = u.frequency }

save_learnt : List String → User → Time → Store → List String × User × Store
save_learnt [] u now s = (
  [],
  record u { onboarded_at = some now },
  set_user u.id
      (λ r. record (write_learnt u r) { onboarded_at = coalesce r.onboarded_at (some now) }) s,
)
save_learnt (field ∷ fields) u now s = (field ∷ fields, u, set_user u.id (write_learnt u) s)

-- The fields still missing, the profile in memory, and the store.
unfoldable pub save_onboarding :
    User → String → String → String → Time → Store → List String × User × Store
unfolding learn missing_fields save_learnt
save_onboarding u name interests frequency now s =
    let u' = learn name interests frequency u in save_learnt (missing_fields u') u' now s

abbrev open_name_item : ℕ → ChecklistItem → Bool
open_name_item user_id c =
    (c.user_id == user_id) && str_eq c.key "name" && str_eq c.status status_unanswered

unfoldable pub set_name : User → String → Time → Store → Result User × Store
set_name u name now s =
    if u.id == 0
    then (err (message "no profile to name"), s)
    else if str_eq (normalise_name name) ""
    then (err unusable_answer, s)
    else (
      ok (record u { name = normalise_name name }),
      record (set_user u.id (λ r. record r { name = normalise_name name }) s) {
        checklist_items =
            Sql.update (open_name_item u.id)
              (λ c. record c {
                status = status_answered;
                answer = normalise_name name;
                source = source_profile;
                answered_at = some now;
              })
              s.checklist_items;
      },
    )

unfoldable pub mark_onboarded : User → Time → Store → User × Store
mark_onboarded u now s = if onboarded u then (u, s) else (
  record u { onboarded_at = some now },
  set_user u.id (λ r. record r { onboarded_at = coalesce r.onboarded_at (some now) }) s,
)

unfoldable pub set_call_sid : ℕ → String → Store → Store
set_call_sid user_id sid s = set_user user_id (λ r. record r { last_call_sid = sid }) s

unfoldable pub set_frequency : ℕ → String → Store → Store
set_frequency user_id frequency s = set_user user_id (λ r. record r { frequency = frequency }) s

unfoldable pub mark_triggered : ℕ → Time → Store → Store
mark_triggered user_id at s = set_user user_id (λ r. record r { last_triggered_at = some at }) s
