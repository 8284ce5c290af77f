-- ===== src/Matching/Chosen.antt =====
-- What is suggested is one of the candidates.
use running_hackathon.Prelude.{◌≡◌, List, [], ◌∷◌, All, Option-cases, inl, inr, String}
use mathlib.Core.Path.{subst}
use running_hackathon.Clock.{Time}
use running_hackathon.Outcome.{Result, ok}
use running_hackathon.Interests.{interest_list}
use running_hackathon.Sql.Order.{All-order_by}
use running_hackathon.Db.{User, Event}
use running_hackathon.Matching.Eligible.{score_event-event}
use running_hackathon.Matching.{
  EventMatch, split_preferences, score_event, score_all, better_match, best_of, rank_events,
  match_event,
}

ok-inj : {a b : EventMatch} → ◌≡◌ {A = Result EventMatch} (ok a) (ok b) → a ≡ b
ok-inj e = cc

module _ (P : Event → Type 0) where
  abbrev IsChosen : EventMatch → Type 0
  IsChosen m = P m.event

  score_all-All :
      (candidates : List Event) (wanted unwanted : List String) (now : Time) (out : List EventMatch)
      → All P candidates
      → All IsChosen out
      → All IsChosen (score_all candidates wanted unwanted now out)
  unfolding score_all
  score_all-All [] wanted unwanted now out h hs = hs
  score_all-All (e ∷ candidates) wanted unwanted now out (p, ps) hs =
      elim (Option-cases (score_event e wanted unwanted now)) [
        | inl k ↦ rw k (score_all-All candidates wanted unwanted now out ps hs)
        | inr (m, k) ↦ rw k (
            score_all-All candidates wanted unwanted now (m ∷ out) ps
              (subst P (score_event-event e wanted unwanted now m k) p, hs))
      ]

  best-All :
      (ms : List EventMatch) (m : EventMatch) → All IsChosen ms → best_of ms ≡ ok m → P m.event
  unfolding best_of
  best-All [] m h e = absurd (cc)
  best-All (x ∷ ms) m (p, ps) e = subst IsChosen (ok-inj e) p

  -- What holds of every candidate holds of the event that is chosen.
  pub match_event-All :
      (u : User) (candidates : List Event) (now : Time) (m : EventMatch)
      → All P candidates
      → match_event u candidates now ≡ ok m
      → P m.event
  unfolding match_event rank_events
  match_event-All u candidates now m h e =
      let preferences = split_preferences (interest_list u) in
      best-All (rank_events u candidates now) m
        (All-order_by IsChosen better_match
          (score_all candidates preferences.0 preferences.1 now [])
          (score_all-All candidates preferences.0 preferences.1 now [] h tt))
        e
