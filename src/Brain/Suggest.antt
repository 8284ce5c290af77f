-- ===== src/Brain/Suggest.antt =====
-- brain.go: SaveCheckin, SuggestEvent, AcceptSuggestion and noMatchLine, which the voice tools share.
-- `show_when` is the layout of a time for people (Format in Europe/London).
pub mod Frame
pub mod Offers
use running_hackathon.Prelude.{
  ℕ, String, Bool, true, false, not, ◌&&◌, ◌||◌, Option, none, some, List, [], ◌∷◌, ltb, str_eq,
  if◌then◌else◌, is_some,
}
use running_hackathon.Clock.{Time}
use running_hackathon.Outcome.{Result, ok, err, message}
use running_hackathon.Str.{trim_space, ◌+s◌}
use running_hackathon.Db.{User, Checkin, Event, Store}
use running_hackathon.Matching.{EventMatch, match_event}
use running_hackathon.Activity.{
  Suggestion, add_checkin, candidate_events, add_suggestion, open_suggestion, set_suggestion_status,
  status_accepted,
}

unfoldable pub no_match_line : User → String
no_match_line u =
    if str_eq (trim_space u.interests) ""
    then "I haven't got anything worth recommending right now - what kind of thing would you actually want to go to?"
    else "Nothing in my list is a good fit for you at the moment, so I'd rather not push something random. Want me to widen it beyond "
      +s u.interests +s "?"

-- A mood outside 1 to 5 is dropped.
abbrev pub usable_mood : Option ℕ → Option ℕ
usable_mood none = none
usable_mood (some m) = if ltb m 1 || ltb 5 m then none else some m

unfoldable pub save_checkin :
    User → Option ℕ → String → String → String → Time → Store → Result Checkin × Store
save_checkin u mood summary topics raw now s =
    if str_eq (trim_space summary) "" && not (is_some (usable_mood mood))
    then (err (message "check-in needs a summary or a mood"), s)
    else add_checkin
        record {
          id = 0;
          user_id = u.id;
          mood = usable_mood mood;
          summary = trim_space summary;
          topics = topics;
          raw = raw;
          created_at = 0;
        }
        now s

abbrev pub candidate_limit : ℕ
candidate_limit = 1000

suggest : Result EventMatch → User → Time → Store → Result EventMatch × Store
suggest (err e) u now s = (err e, s)
suggest (ok m) u now s = (ok m, (add_suggestion u.id m.event.id now s).1)

unfoldable pub suggest_event : User → Time → Store → Result EventMatch × Store
unfolding suggest
suggest_event u now s =
    suggest (match_event u (candidate_events u.id candidate_limit now s) now) u now s

module _ (show_when : Time → String) where
  abbrev pub confirmation : Event → String
  confirmation e =
      "You're on the list for "
      +s e.title
      +s " on "
      +s show_when e.starts_at
      +s ". Details: "
      +s e.url

  accepting : Result Suggestion → User → Store → Result String × Store
  accepting (err e) u s = (err e, s)
  accepting (ok g) u s =
      let (set, s') = set_suggestion_status u.id g.row.id status_accepted s in
      (elim set [ err e ↦ err e | ok done ↦ ok (confirmation g.event) ], s')

  unfoldable pub accept_suggestion : User → Store → Result String × Store
  unfolding accepting
  accept_suggestion u s = accepting (open_suggestion u.id s) u s
