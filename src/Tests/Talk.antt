-- ===== src/Tests/Talk.antt =====
-- The theorems on the conversation and on what a caller is told, applied to concrete people.
use running_hackathon.Prelude.{
  ℕ, ◌+◌, ◌*◌, ◌≤◌, String, true, ◌≡◌, ◌≢◌, refl, none, some, List, [], ◌∷◌, arith, false, All,
}
use running_hackathon.Clock.{minute, day}
use running_hackathon.Outcome.{Result, ok, err, is_ok}
use running_hackathon.Sql
use running_hackathon.Outside.{said, tool_use, Outside}
use running_hackathon.Db.{User, ChecklistItem, Event, Store}
use running_hackathon.Guarded.{guarded}
use running_hackathon.Matching.{
  EventMatch, match_event, rank_events, score_all, score_event, is_unwanted, split_preferences,
  audience, hits, human_days, interest_fit, location_fit, timing,
}
use running_hackathon.Matching.Rules.{
  contains_any, interest_tags, matches_interest, mentions_city, opted_in,
}
use running_hackathon.Interests.{interest_list, interest_stem}
use running_hackathon.Activity.{candidate_events, is_candidate, add_suggestion}
use running_hackathon.Decimal.{decimal}
use running_hackathon.Str.{
  trim_space, split, trim, to_lower, after, contains, has_prefix, has_suffix, in_cutset, join,
  trim_prefix, trim_suffix,
}
use running_hackathon.Brain.Suggest.{suggest_event}
use running_hackathon.Brain.Suggest.Offers.{times_offered, suggest_event-fresh, suggest_event-twice}
use running_hackathon.Brain.Model.{reply}
use running_hackathon.Brain.Model.Gate.{reply-introduction}
use running_hackathon.Brain.Model.Reach.{reply-guarded}
use running_hackathon.VoiceContext.{build_caller_context}
use running_hackathon.VoiceContext.World.{
  IsClosed, Distinct, build_caller_context-IsClosed, greeting-unverified,
}
use running_hackathon.Ics.{Zones, parse_ics}
use running_hackathon.Ics.Kept.{IsDated, parse_ics-IsDated}
use running_hackathon.Tests.{noon, ada, newcomer, ada_store, newcomer_store, quiet}

-- A model that asks for a suggestion whatever it is told.
abbrev eager : Outside
eager = record quiet {
  create_message = some (λ msgs. some (tool_use "1" "suggest_event" "{}" ∷ said "Done." ∷ []));
}

reply-guarded_example :
    guarded (reply eager "" ada "anything on?" noon ada_store).2 ≡ guarded ada_store
reply-guarded_example = reply-guarded eager "" ada "anything on?" noon ada_store

reply-introduction_example :
    reply eager "https://feed" newcomer "Ada" noon newcomer_store
    ≡ reply quiet "" newcomer "Ada" noon newcomer_store
reply-introduction_example =
    reply-introduction eager quiet "https://feed" "" newcomer "Ada" noon newcomer_store refl refl

abbrev item : ℕ → String → String → ChecklistItem
item n key status = record {
  id = n;
  user_id = 1;
  session_id = 1;
  key = key;
  position = n;
  prompt = "?";
  status = status;
  answer = "fine";
  source = "conversation";
  asked_at = none;
  answered_at = none;
}

abbrev asked : List ChecklistItem
asked = item 1 "mood" "answered" ∷ item 2 "event_offer" "unanswered" ∷ []

asked-Distinct : Distinct asked
unfolding Distinct
asked-Distinct = ((refl, tt), (tt, tt))

build_caller_context-IsClosed_example :
    IsClosed (build_caller_context "+447700900123" (some ada) asked)
build_caller_context-IsClosed_example =
    build_caller_context-IsClosed "+447700900123" ada asked asked-Distinct

greeting-unverified_example :
    (build_caller_context "+447700900123" (some newcomer) asked).greeting
    ≡ (build_caller_context "+447700900123" none []).greeting
greeting-unverified_example = greeting-unverified "+447700900123" newcomer asked refl

abbrev meetup : ℕ → String → Event
meetup n title = record {
  id = n;
  title = title;
  starts_at = noon + (2 + n) * day;
  city = "";
  url = "u";
  tags = "";
}

abbrev listed : Store
listed = record ada_store {
  events = record { rows = meetup 1 "A" ∷ meetup 2 "B" ∷ []; next_id = 3 };
}

abbrev easy : User
easy = record ada { interests = "" }

chosen : Result EventMatch → EventMatch
chosen (ok m) = m
chosen (err e) = record { event = meetup 0 ""; score = 0; reasons = [] }

was_chosen : (r : Result EventMatch) → is_ok r ≡ true → r ≡ ok (chosen r)
unfolding chosen
was_chosen (ok m) h = refl
was_chosen (err e) h = absurd (cc)

abbrev first_match : EventMatch
first_match = chosen (suggest_event easy noon listed).0

has_first : is_ok (suggest_event easy noon listed).0 ≡ true
unfolding suggest_event match_event rank_events Sql.order_by score_all candidate_events Sql.select
    is_candidate Sql.count score_event trim_space is_unwanted split_preferences interest_list split
    trim to_lower add_suggestion decimal interest_stem contains_any interest_tags matches_interest
    mentions_city opted_in audience hits human_days interest_fit location_fit timing Sql.insert
    Sql.place after contains has_prefix has_suffix in_cutset join trim_prefix trim_suffix
has_first = refl

suggest_event-fresh_example :
    (noon ≤ first_match.event.starts_at)
    × (times_offered 1 first_match.event.id listed ≡ 0)
    × (times_offered 1 first_match.event.id (suggest_event easy noon listed).1 ≡ 1)
suggest_event-fresh_example =
    suggest_event-fresh easy noon listed first_match
      (was_chosen (suggest_event easy noon listed).0 has_first)

abbrev offered_once : Store
offered_once = (suggest_event easy noon listed).1

abbrev second_match : EventMatch
second_match = chosen (suggest_event easy (noon + minute) offered_once).0

has_second : is_ok (suggest_event easy (noon + minute) offered_once).0 ≡ true
unfolding suggest_event match_event rank_events Sql.order_by score_all candidate_events Sql.select
    is_candidate Sql.count score_event trim_space is_unwanted split_preferences interest_list split
    trim to_lower add_suggestion decimal interest_stem contains_any interest_tags matches_interest
    mentions_city opted_in audience hits human_days interest_fit location_fit timing Sql.insert
    Sql.place after contains has_prefix has_suffix in_cutset join trim_prefix trim_suffix
has_second = refl

suggest_event-twice_example : second_match.event.id ≢ first_match.event.id
suggest_event-twice_example =
    suggest_event-twice easy noon (noon + minute) listed offered_once first_match second_match
      (was_chosen (suggest_event easy noon listed).0 has_first) (omega arith)
      (was_chosen (suggest_event easy (noon + minute) offered_once).0 has_second)

abbrev greenwich : Zones
greenwich = record {
  read_in = λ layout value zone. some noon;
  is_known_zone = λ name. false;
  hour_and_minute = λ t. "12:00";
  is_same_day = λ t day. true;
}

abbrev feed : String
feed = "BEGIN:VEVENT\r\nSUMMARY:Stand\r\n up\r\nDTSTART:20260301T120000Z\r\nEND:VEVENT\r\n"

parse_ics-IsDated_example : All (IsDated greenwich) (parse_ics greenwich feed)
parse_ics-IsDated_example = parse_ics-IsDated greenwich feed
