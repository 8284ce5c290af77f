-- ===== src/Checklist/Template.antt =====
-- checklist.go, the questions: ChecklistQuestion, the two templates, templateFor, FlowFor, questionByKey.
use running_hackathon.Prelude.{
  ◌*◌, String, Bool, true, false, Option, none, some, List, [], ◌∷◌, ◌++◌, str_eq, if◌then◌else◌,
  is_some,
}
use running_hackathon.Clock.{Duration, hour}
use running_hackathon.Db.{User}
use running_hackathon.Str.{trim_space}

abbrev pub status_unanswered : String
status_unanswered = "unanswered"

abbrev pub status_answered : String
status_answered = "answered"

abbrev pub status_skipped : String
status_skipped = "skipped"

abbrev pub status_declined : String
status_declined = "declined"

-- The zero TTL is Go's zero duration: the answer never goes stale.
pub record ChecklistQuestion : Type 0 where
  pub key : String
  pub prompt : String
  pub persists : String
  pub known_from : Option (User → String)
  pub ttl : Duration
  pub per_session : Bool
  pub dynamic : Bool

abbrev pub flow_onboarding : String
flow_onboarding = "onboarding"

abbrev pub flow_checkin : String
flow_checkin = "checkin"

-- User.DisplayName and User.Onboarded
unfoldable pub display_name : User → String
display_name u = trim_space u.name

abbrev pub onboarded : User → Bool
onboarded u = is_some u.onboarded_at

-- A question with Go's zero values in the fields that a literal leaves out.
abbrev asked_as : String → String → ChecklistQuestion
asked_as key prompt = record {
  key = key;
  prompt = prompt;
  persists = "";
  known_from = none;
  ttl = 0;
  per_session = false;
  dynamic = false;
}

unfoldable pub onboarding_template : List ChecklistQuestion
onboarding_template =
    record (asked_as "name" "Hi, I'm CheckIn. Before anything else - what should I call you?") {
      persists = "name";
      known_from = some display_name;
    }
    ∷ record (asked_as "event_types"
        "Good to meet you. What kind of events are you actually into - hackathons, meetups, conferences, something more social?") {
          persists = "interests";
          known_from = some (λ u. u.interests);
        }
    ∷ asked_as "event_time"
        "And when do you usually have time for them - weekday evenings, weekends, lunchtimes?"
    ∷ record (asked_as "event_offer" "") { per_session = true; dynamic = true }
    ∷ record (asked_as "checkin_consent"
        "Last thing, and it's a separate question: want me to check in with you now and then to see how you're doing? Reply daily, twice daily, weekdays, or no thanks.") {
          persists = "frequency";
        }
    ∷ []

unfoldable pub checkin_template : List ChecklistQuestion
checkin_template =
    record (asked_as "evening_availability"
      "Are you free for an event with like-minded people at 7 PM?") { ttl = 20 * hour }
    ∷ asked_as "notify_watch" "What should we keep our eyes out for to notify you?"
    ∷ []

unfoldable pub template_for : String → List ChecklistQuestion
unfolding onboarding_template checkin_template
template_for flow = if str_eq flow flow_onboarding then onboarding_template else checkin_template

-- FlowFor: `none` is the nil profile.
unfoldable pub flow_for : Option User → String
flow_for none = flow_onboarding
flow_for (some u) = if onboarded u then flow_checkin else flow_onboarding

-- Go's ChecklistQuestion{}
abbrev pub no_question : ChecklistQuestion
no_question = asked_as "" ""

find_key : String → List ChecklistQuestion → ChecklistQuestion
find_key key [] = no_question
find_key key (q ∷ qs) = let rest = find_key key qs in if str_eq q.key key then q else rest

unfoldable pub question_by_key : String → ChecklistQuestion
unfolding find_key onboarding_template checkin_template
question_by_key key = find_key key (onboarding_template ++ checkin_template)
