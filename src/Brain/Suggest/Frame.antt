-- ===== src/Brain/Suggest/Frame.antt =====
-- brain.go: what SaveCheckin, SuggestEvent and AcceptSuggestion leave alone.
use running_hackathon.Prelude.{ℕ, String, ◌≡◌, refl, Option, arith}
use running_hackathon.Clock.{Time}
use running_hackathon.Outcome.{Result, ok, err}
use running_hackathon.Db.{User, Store}
use running_hackathon.Guarded.{guarded}
use running_hackathon.Matching.{EventMatch, match_event}
use running_hackathon.Activity.{
  Suggestion, add_checkin, add_suggestion, open_suggestion, set_suggestion_status, candidate_events,
}
use running_hackathon.Brain.Suggest.{
  suggest, suggest_event, accepting, accept_suggestion, candidate_limit, save_checkin,
}

pub save_checkin-guarded :
    (u : User) (mood : Option ℕ) (summary topics raw : String) (now : Time) (s : Store)
    → guarded (save_checkin u mood summary topics raw now s).1 ≡ guarded s
unfolding save_checkin add_checkin
save_checkin-guarded u mood summary topics raw now s = ground arith

suggest-guarded :
    (r : Result EventMatch) (u : User) (now : Time) (s : Store)
    → guarded (suggest r u now s).1 ≡ guarded s
unfolding suggest add_suggestion
suggest-guarded (err e) u now s = refl
suggest-guarded (ok m) u now s = refl

pub suggest_event-guarded :
    (u : User) (now : Time) (s : Store) → guarded (suggest_event u now s).1 ≡ guarded s
unfolding suggest_event
suggest_event-guarded u now s =
    suggest-guarded (match_event u (candidate_events u.id candidate_limit now s) now) u now s

module _ (show_when : Time → String) where
  accepting-guarded :
      (r : Result Suggestion) (u : User) (s : Store)
      → guarded (accepting show_when r u s).1 ≡ guarded s
  unfolding accepting set_suggestion_status
  accepting-guarded (err e) u s = refl
  accepting-guarded (ok g) u s = refl

  pub accept-guarded :
      (u : User) (s : Store) → guarded (accept_suggestion show_when u s).1 ≡ guarded s
  unfolding accept_suggestion
  accept-guarded u s = accepting-guarded (open_suggestion u.id s) u s
