-- ===== src/VoiceContext.antt =====
-- voice_context.go: what the voice agent is told of a caller. A map of Go is a list of its entries, each key
-- once, in the order in which the code enters them.
pub mod World
use running_hackathon.Prelude.{
  ℕ, String, Bool, true, false, not, ◌&&◌, ◌||◌, Option, none, some, List, [], ◌∷◌, ◌++◌, str_eq,
  if◌then◌else◌, is_some,
}
use running_hackathon.Str.{trim_space, join, ◌+s◌}
use running_hackathon.Db.{User, ChecklistItem}
use running_hackathon.Auth.Sessions.{phone_verified}
use running_hackathon.Checklist.Template.{display_name, status_answered}
use running_hackathon.Checklist.Sessions.{source_profile}
use running_hackathon.Checklist.Answers.{is_settled}

pub record Field : Type 0 where
  pub is_known : Bool
  pub value : String
  pub source : String

abbrev pub no_field : Field
no_field = record { is_known = false; value = ""; source = "" }

unfoldable pub known : String → String → Field
known value source =
    if str_eq (trim_space value) ""
    then no_field
    else record { is_known = true; value = trim_space value; source = source }

unfoldable pub entry {ℓ} : {A : Type ℓ} → String → List (String × A) → Option A
entry key [] = none
entry key ((k, a) ∷ entries) = let rest = entry key entries in if str_eq k key then some a else rest

-- The entry in place, or a new one at the end.
unfoldable pub put {ℓ} : {A : Type ℓ} → String → A → List (String × A) → List (String × A)
put key a [] = (key, a) ∷ []
put key a ((k, b) ∷ entries) =
    let rest = put key a entries in if str_eq k key then (k, a) ∷ entries else (k, b) ∷ rest

pub record CallerContext : Type 0 where
  pub phone : String
  pub resolved : Bool
  pub verified : Bool
  pub known_fields : List (String × Field)
  pub missing : List String
  pub do_not_ask : List String
  pub greeting : String
  pub instruction : String

-- A field of the profile.
unfoldable pub on_profile : String → Field → CallerContext → CallerContext
on_profile key f c =
    if not f.is_known
    then c
    else record c { known_fields = put key f c.known_fields; do_not_ask = c.do_not_ask ++ key ∷ [] }

-- The field of an item of the checklist; a skipped or declined one is settled but not known.
unfoldable pub field_of : ChecklistItem → Field
unfolding known
field_of it = if str_eq it.status status_answered then known it.answer it.source else no_field

unfoldable pub add_item : ChecklistItem → CallerContext → CallerContext
add_item it c =
    if is_some (entry it.key c.known_fields)
    then c
    else if str_eq it.status status_answered || is_settled it
    then record c {
      known_fields = put it.key (field_of it) c.known_fields;
      do_not_ask = c.do_not_ask ++ it.key ∷ [];
    }
    else record c { missing = c.missing ++ it.key ∷ [] }

unfoldable pub add_items : List ChecklistItem → CallerContext → CallerContext
add_items [] c = c
add_items (it ∷ its) c = add_items its (add_item it c)

spoken_name : Option Field → Bool → String
spoken_name none verified = "Hi, this is CheckIn."
spoken_name (some f) verified =
    if not f.is_known || not verified
    then "Hi, this is CheckIn."
    else "Hi " +s f.value +s ", it's CheckIn."

unfoldable pub greeting_for : CallerContext → String
unfolding spoken_name
greeting_for c = spoken_name (entry "name" c.known_fields) c.verified

unfoldable pub instruction_for : CallerContext → String
instruction_for c =
    "Everything you know about this caller is in `known`; nothing else exists. "
    +s (if not c.verified
        then "This number has not been verified, so do not use their name until they confirm who they are, and say plainly that you need to check. "
        else "")
    +s elim c.do_not_ask [
      | [] ↦ ""
      | k ∷ ks ↦ "Already on file, never ask for these again: " +s join (k ∷ ks) ", " +s ". "
    ]
    +s elim c.missing [
      | [] ↦ "Nothing is missing: do not run the interview, just do the check-in."
      | k ∷ ks ↦
          "Genuinely missing or stale, ask only these and only one at a time, in this order: "
          +s join (k ∷ ks) ", "
          +s "."
    ]

abbrev pub blank_context : String → CallerContext
blank_context phone = record {
  phone = phone;
  resolved = false;
  verified = false;
  known_fields = [];
  missing = [];
  do_not_ask = [];
  greeting = "";
  instruction = "";
}

unfoldable pub profile_context : String → User → CallerContext
profile_context phone u = on_profile "event_types" (known u.interests source_profile) (
    on_profile "frequency" (known u.frequency source_profile) (
      on_profile "name" (known (display_name u) source_profile)
        (record (blank_context phone) { resolved = true; verified = phone_verified u })))

greeted : CallerContext → CallerContext
greeted c = record c { greeting = greeting_for c; instruction = instruction_for c }

unfoldable pub build_caller_context : String → Option User → List ChecklistItem → CallerContext
unfolding greeted
build_caller_context phone none items = record (blank_context phone) {
  greeting = "Hi, this is CheckIn.";
  instruction =
      "This number does not match anyone on file. Do not use a name and do not assume any history. Say plainly that you do not have their details yet, ask only for their name, and take it from there.";
  missing = "name" ∷ "event_types" ∷ "frequency" ∷ [];
}
build_caller_context phone (some u) items = greeted (add_items items (profile_context phone u))

abbrev pub bool_word : Bool → String
bool_word b = if b then "yes" else "no"

known_variables : List (String × Field) → List (String × String) → List (String × String)
known_variables [] vars = vars
known_variables ((key, f) ∷ entries) vars =
    known_variables entries (put ("user_" +s key) (if f.is_known then f.value else "unknown") vars)

or_unknown : List String → List (String × String) → List (String × String)
or_unknown [] vars = vars
or_unknown (key ∷ keys) vars =
    or_unknown keys (if is_some (entry key vars) then vars else put key "unknown" vars)

unfoldable pub dynamic_variables : CallerContext → List (String × String)
unfolding known_variables or_unknown
dynamic_variables c = or_unknown ("user_name" ∷ "user_frequency" ∷ "user_event_types" ∷ []) (
    known_variables c.known_fields (
      ("user_phone", c.phone)
      ∷ ("caller_known", bool_word c.resolved)
      ∷ ("phone_verified", bool_word c.verified)
      ∷ ("greeting", c.greeting)
      ∷ ("do_not_ask", join c.do_not_ask ", ")
      ∷ ("ask_only", join c.missing ", ")
      ∷ []))
