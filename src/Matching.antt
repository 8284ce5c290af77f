-- ===== src/Matching.antt =====
-- matching.go: which event to suggest. Reasons are the texts of the code. The hours between two instants
-- are divided exactly, where Go divides floating-point numbers.
pub mod Rules
pub mod Eligible
pub mod Chosen
use running_hackathon.Prelude.{
  ℕ, suc, zero, ◌+◌, ◌*◌, ◌-◌, ◌/◌, ◌%◌, String, Bool, true, false, not, ◌&&◌, ◌||◌, Option, none,
  some, List, [], ◌∷◌, ◌++◌, length, ltb, leb, ◌==◌, str_eq, if◌then◌else◌,
}
use Prim.Native.String.{slice}
use running_hackathon.Clock.{Time, day}
use running_hackathon.Outcome.{Result, ok, err, no_match}
use running_hackathon.Str.{trim_space, to_lower, has_prefix, trim_prefix, contains, join, ◌+s◌}
use running_hackathon.Decimal.{decimal}
use running_hackathon.Interests.{interest_list}
use running_hackathon.Sql.{order_by}
use running_hackathon.Db.{User, Event}
use running_hackathon.Matching.Rules.{
  AudienceRule, audience_rules, preferred_city, contains_any, matches_interest, opted_in,
  mentions_city,
}

pub record EventMatch : Type 0 where
  pub event : Event
  pub score : ℕ
  pub reasons : List String

abbrev pub why : EventMatch → String
why m = join m.reasons "; "

abbrev pub add_wanted : String → List String × List String → List String × List String
add_wanted p split = (p ∷ split.0, split.1)

abbrev pub add_unwanted : String → List String × List String → List String × List String
add_unwanted p split = (split.0, p ∷ split.1)

-- The wanted and the unwanted interests, each in the order given.
unfoldable pub split_preferences : List String → List String × List String
split_preferences [] = ([], [])
split_preferences (p ∷ parts) =
    let rest = split_preferences parts in
    if has_prefix p "no "
    then add_unwanted (trim_space (trim_prefix p "no ")) rest
    else if has_prefix p "not "
    then add_unwanted (trim_space (trim_prefix p "not ")) rest
    else if has_prefix p "avoid "
    then add_unwanted (trim_space (trim_prefix p "avoid ")) rest
    else add_wanted p rest

abbrev pub haystack : Event → String
haystack e = to_lower (e.title +s " " +s e.tags +s " " +s e.city)

unfoldable pub is_unwanted : String → List String → Bool
is_unwanted hay [] = false
is_unwanted hay (p ∷ unwanted) =
    (not (str_eq p "") && matches_interest hay p) || is_unwanted hay unwanted

-- The reasons of the rules that mark the event, or none where somebody is outside its audience.
unfoldable pub audience : String → List String → List AudienceRule → Option (List String)
audience hay wanted [] = some []
audience hay wanted (rule ∷ rules) =
    let rest = audience hay wanted rules in
    if not (contains_any hay rule.markers)
    then rest
    else if not (opted_in wanted rule.opt_in)
    then none
    else elim rest [
      | none ↦ none
      | some reasons ↦
          some (("you told me you're part of this community (" +s rule.label +s ")") ∷ reasons)
    ]

unfoldable pub hits : String → List String → List String
hits hay [] = []
hits hay (p ∷ wanted) =
    let rest = hits hay wanted in if matches_interest hay p then p ∷ rest else rest

-- A part of the score with its reason, or none where the event is dropped.
unfoldable pub interest_fit : List String → List String → Option (ℕ × String)
interest_fit (hit ∷ others) wanted =
    some (3 * length (hit ∷ others), "matches your interest in " +s join (hit ∷ others) " and ")
interest_fit [] (p ∷ wanted) = none
interest_fit [] [] = some (1, "you haven't told me what you're into yet, so this is a general pick")

unfoldable pub location_fit : Event → List String → Option (ℕ × String)
location_fit e wanted =
    let city = to_lower (trim_space e.city) in
    if str_eq city preferred_city
    then some (2, "it's in London")
    else if str_eq city "" || str_eq city "online" || str_eq city "virtual" || str_eq city "remote"
    then some (1, "it's online, so location isn't a problem")
    else if not (mentions_city wanted city)
    then none
    else some (2, "it's in " +s e.city +s ", which you mentioned")

unfoldable pub human_days : ℕ → String
human_days days =
    if days == 0
    then "today"
    else if days == 1
    then "tomorrow"
    else if ltb days 14
    then "in " +s decimal days +s " days"
    else "in " +s decimal (days / 7) +s " weeks"

unfoldable pub timing : ℕ → ℕ × String
timing days =
    if leb days 30
    then (2, "it's soon (" +s human_days days +s ")")
    else if leb days 90
    then (1, "it's within the next few months")
    else (0, "it's a way off yet")

total : Event → List String → ℕ × String → ℕ × String → ℕ × String → EventMatch
total e audience_reasons fit place time = record {
  event = e;
  score = fit.0 + place.0 + time.0;
  reasons = audience_reasons ++ fit.1 ∷ place.1 ∷ time.1 ∷ [];
}

unfoldable pub score_event : Event → List String → List String → Time → Option EventMatch
unfolding total
score_event e wanted unwanted now =
    if not (ltb now e.starts_at)
    then none
    else if str_eq (trim_space e.url) ""
    then none
    else if is_unwanted (haystack e) unwanted
    then none
    else elim (audience (haystack e) wanted audience_rules) [
      | none ↦ none
      | some audience_reasons ↦ elim (interest_fit (hits (haystack e) wanted) wanted) [
        | none ↦ none
        | some fit ↦ elim (location_fit e wanted) [
          | none ↦ none
          | some place ↦
              some (total e audience_reasons fit place (timing ((e.starts_at - now) / day)))
        ]
      ]
    ]

-- The matches of the candidates, the last candidate's first, on top of those found before.
unfoldable pub score_all :
    List Event → List String → List String → Time → List EventMatch → List EventMatch
score_all [] wanted unwanted now out = out
score_all (e ∷ candidates) wanted unwanted now out =
    score_all candidates wanted unwanted now
      (elim (score_event e wanted unwanted now) [ none ↦ out | some m ↦ m ∷ out ])

-- Score descending, then the start ascending; matches alike in both keep the candidates' order.
abbrev pub better_match : EventMatch → EventMatch → Bool
better_match a b =
    ltb b.score a.score || ((a.score == b.score) && ltb a.event.starts_at b.event.starts_at)

unfoldable pub rank_events : User → List Event → Time → List EventMatch
rank_events u candidates now =
    let preferences = split_preferences (interest_list u) in
    order_by better_match (score_all candidates preferences.0 preferences.1 now [])

best_of : List EventMatch → Result EventMatch
best_of [] = err no_match
best_of (m ∷ matches) = ok m

unfoldable pub match_event : User → List Event → Time → Result EventMatch
unfolding best_of
match_event u candidates now = best_of (rank_events u candidates now)
