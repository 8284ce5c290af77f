-- ===== src/Tests.antt =====
-- Concrete stores, people and times, at which the theorems of the other modules are applied.
pub mod Auth
pub mod Checklist
pub mod Signals
pub mod Users
pub mod SignIn
pub mod Hooks
pub mod Talk
use running_hackathon.Prelude.{
  ℕ, ◌+◌, ◌*◌, String, Bool, true, false, ◌≡◌, ◌≢◌, refl, sym, ◌∙◌, Option, none, some, List, [],
  ◌∷◌, str_eq, eq_iff,
}
use running_hackathon.Clock.{Time, hour, day, second}
use running_hackathon.Str.{◌+s◌}
use running_hackathon.Sql
use running_hackathon.Db.{User, Event, Transcript, Store, fresh_store}
use running_hackathon.Users.{stranger}
use running_hackathon.Outside.{Outside}
use running_hackathon.Server.State.{ServerState, new_limits}

-- A digest that tells all secrets apart.
abbrev pub digest : String → String
digest secret = secret +s "#"

abbrev pub noon : Time
noon = 1_000 * day + 12 * hour

abbrev pub ada : User
ada = record (stranger "+447700900123") {
  id = 1;
  name = "Ada";
  interests = "hackathons, no conferences";
  onboarded_at = some noon;
  phone_verified_at = some noon;
  phone_verified_via = "sms";
}

abbrev pub newcomer : User
newcomer = record (stranger "+447700900123") { id = 1 }

abbrev pub ada_store : Store
ada_store = record fresh_store { users = record { rows = ada ∷ []; next_id = 2 } }

abbrev pub newcomer_store : Store
newcomer_store = record fresh_store { users = record { rows = newcomer ∷ []; next_id = 2 } }

true_is_not_false : ◌≡◌ {A = Bool} true false → ⊥
true_is_not_false e = cc

pub differ : (a b : String) → str_eq a b ≡ false → a ≢ b
differ a b h e = true_is_not_false (sym ((eq_iff a b).1 e) ∙ h)

-- Providers that take everything, and no language model.
abbrev pub quiet : Outside
quiet = record {
  format = λ layout t. layout;
  format_utc = λ t. "then";
  encode = λ j. "{}";
  decode_checkin = λ input. record { mood = none; summary = input; topics = "" };
  today = λ url. [];
  create_message = none;
  takes_sms = λ phone body. true;
  ring = λ phone name onboarded vars. some "CA1";
}

abbrev pub server_of : Store → ServerState
server_of s = record { store = s; limits = new_limits; sent = []; rung = []; hangups = [] }
