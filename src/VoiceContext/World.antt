-- ===== src/VoiceContext/World.antt =====
-- voice_context.go: the closed world of a call.
use running_hackathon.Prelude.{
  String, Bool, false, ◌||◌, ◌≡◌, refl, sym, ◌∙◌, Option, none, some, List, [], ◌∷◌, ◌++◌, arith,
  All, All-mono, All-append, inl, inr, Bool-cases, str_eq, is_some,
}
use mathlib.Core.Path.{subst}
use running_hackathon.Db.{User, ChecklistItem}
use running_hackathon.Auth.Sessions.{phone_verified}
use running_hackathon.Checklist.Template.{status_answered}
use running_hackathon.Checklist.Answers.{is_settled}
use running_hackathon.VoiceContext.{
  Field, entry, put, CallerContext, on_profile, field_of, add_item, add_items, profile_context,
  greeting_for, spoken_name, greeted, build_caller_context,
}

unfoldable pub keys : List (String × Field) → List String
keys [] = []
keys ((k, f) ∷ entries) = k ∷ keys entries

put_new :
    (key : String) (f : Field) (entries : List (String × Field))
    → is_some (entry key entries) ≡ false
    → keys (put key f entries) ≡ keys entries ++ key ∷ []
unfolding keys put entry
put_new key f [] h = refl
put_new key f ((k, g) ∷ entries) h = ground (arith, put_new key f entries)

-- A new entry shows under its own key only.
entry-put :
    (key m : String) (f : Field) (entries : List (String × Field))
    → str_eq key m ≡ false
    → is_some (entry m (put key f entries)) ≡ is_some (entry m entries)
unfolding put entry
entry-put key m f [] ne = ground arith
entry-put key m f ((k, g) ∷ entries) ne = ground (arith, entry-put key m f entries ne)

-- Different questions, each under a key of its own.
unfoldable pub Distinct : List ChecklistItem → Type 0
Distinct [] = Unit
Distinct (it ∷ its) = All (λ (j : ChecklistItem). str_eq j.key it.key ≡ false) its × Distinct its

-- What is not to be asked is what is known or settled, and nothing that is to be asked is among it.
pub record IsClosed (c : CallerContext) : Type 0 where
  pub settled : keys c.known_fields ≡ c.do_not_ask
  pub unsettled : All (λ m. is_some (entry m c.known_fields) ≡ false) c.missing

-- A question that is still open and under the key of no item to come.
abbrev IsAhead : List ChecklistItem → List (String × Field) → String → Type 0
IsAhead its fields m =
    (is_some (entry m fields) ≡ false) × All (λ (j : ChecklistItem). str_eq j.key m ≡ false) its

on_profile-settled :
    (key : String) (f : Field) (c : CallerContext)
    → is_some (entry key c.known_fields) ≡ false
    → keys c.known_fields ≡ c.do_not_ask
    → keys (on_profile key f c).known_fields ≡ (on_profile key f c).do_not_ask
unfolding on_profile
on_profile-settled key f c new h = ground (arith, put_new key f c.known_fields new, h)

-- An item that is not settled goes to the questions, and the others to the fields.
add_item-settled :
    (it : ChecklistItem) (c : CallerContext)
    → keys c.known_fields ≡ c.do_not_ask
    → keys (add_item it c).known_fields ≡ (add_item it c).do_not_ask
unfolding add_item
add_item-settled it c h = elim (Bool-cases (is_some (entry it.key c.known_fields))) [
  | inl old ↦ ground (arith, h)
  | inr new ↦ ground (arith, put_new it.key (field_of it) c.known_fields new, h)
]

add_item-IsAhead :
    (it : ChecklistItem) (its : List ChecklistItem) (c : CallerContext)
    → All (λ (j : ChecklistItem). str_eq j.key it.key ≡ false) its
    → All (IsAhead (it ∷ its) c.known_fields) c.missing
    → All (IsAhead its (add_item it c).known_fields) (add_item it c).missing
unfolding add_item
add_item-IsAhead it its c fresh a =
    let passed =
      All-mono (IsAhead (it ∷ its) c.known_fields) (IsAhead its c.known_fields)
        (λ m (n, t). (n, t.1)) c.missing a in
    let put_in =
      All-mono (IsAhead (it ∷ its) c.known_fields)
        (IsAhead its (put it.key (field_of it) c.known_fields))
        (λ m (n, t). (entry-put it.key m (field_of it) c.known_fields t.0 ∙ n, t.1)) c.missing a in
    elim (Bool-cases (is_some (entry it.key c.known_fields))) [
      | inl old ↦ rw old passed
      | inr new ↦ elim (Bool-cases (str_eq it.status status_answered || is_settled it)) [
        | inl settled ↦ rw (new, settled) put_in
        | inr open_still ↦
            rw (new, open_still)
              (All-append (IsAhead its c.known_fields) c.missing (it.key ∷ []) passed
                ((new, fresh), tt))
      ]
    ]

add_items-IsClosed :
    (its : List ChecklistItem) (c : CallerContext)
    → Distinct its
    → keys c.known_fields ≡ c.do_not_ask
    → All (IsAhead its c.known_fields) c.missing
    → IsClosed (add_items its c)
unfolding add_items Distinct
add_items-IsClosed [] c distinct h a = record {
  settled = h;
  unsettled =
      All-mono (IsAhead [] c.known_fields) (λ m. is_some (entry m c.known_fields) ≡ false)
        (λ m t. t.0) c.missing a;
}
add_items-IsClosed (it ∷ its) c (fresh, distinct) h a =
    add_items-IsClosed its (add_item it c) distinct (add_item-settled it c h)
      (add_item-IsAhead it its c fresh a)

profile-settled :
    (phone : String) (u : User)
    → keys (profile_context phone u).known_fields ≡ (profile_context phone u).do_not_ask
unfolding profile_context on_profile put keys
profile-settled phone u = ground arith

profile-missing : (phone : String) (u : User) → (profile_context phone u).missing ≡ []
unfolding profile_context on_profile
profile-missing phone u = ground arith

-- For anyone on file, whatever the answers of the checklist are, each question once: the agent is told never to
-- ask for what is listed as known, for nothing less and nothing more, and what it is told to ask is not listed.
pub build_caller_context-IsClosed :
    (phone : String) (u : User) (its : List ChecklistItem)
    → Distinct its
    → IsClosed (build_caller_context phone (some u) its)
unfolding build_caller_context greeted
build_caller_context-IsClosed phone u its distinct =
    let closed =
      add_items-IsClosed its (profile_context phone u) distinct (profile-settled phone u) (
        subst (λ (l : List String). All (IsAhead its (profile_context phone u).known_fields) l)
          (sym (profile-missing phone u)) tt) in
    record { settled = closed.settled; unsettled = closed.unsettled }

add_items-verified :
    (its : List ChecklistItem) (c : CallerContext) → (add_items its c).verified ≡ c.verified
unfolding add_items add_item
add_items-verified [] c = refl
add_items-verified (it ∷ its) c = add_items-verified its (add_item it c) ∙ ground arith

profile-verified :
    (phone : String) (u : User) → (profile_context phone u).verified ≡ phone_verified u
unfolding profile_context on_profile
profile-verified phone u = ground arith

unverified-spoken :
    (o : Option Field) (b : Bool) → b ≡ false → spoken_name o b ≡ "Hi, this is CheckIn."
unfolding spoken_name
unverified-spoken none b h = refl
unverified-spoken (some f) b h = ground arith

-- A caller whose number is not verified is never greeted by name.
pub greeting-unverified :
    (phone : String) (u : User) (its : List ChecklistItem)
    → phone_verified u ≡ false
    → (build_caller_context phone (some u) its).greeting
      ≡ (build_caller_context phone none []).greeting
unfolding build_caller_context greeted greeting_for
greeting-unverified phone u its h =
    unverified-spoken _ _
      (add_items-verified its (profile_context phone u) ∙ profile-verified phone u ∙ h)
