-- ===== src/Brain/Suggest/Offers.antt =====
-- brain.go, SuggestEvent: no event is suggested to the same person twice.
use running_hackathon.Prelude.{
  ℕ, zero, suc, ◌+◌, ◌≤◌, Bool, true, ◌≡◌, ◌≢◌, ap, ◌∙◌, List, [], ◌∷◌, arith, All, All-mono, take,
  if◌then◌else◌,
}
use mathlib.Core.Path.{subst}
use running_hackathon.Clock.{Time}
use running_hackathon.Outcome.{Result, ok, err}
use running_hackathon.Sql
use running_hackathon.Sql.Laws.{All-select, count-snoc}
use running_hackathon.Sql.Order.{All-order_by}
use running_hackathon.Db.{User, Event, Store}
use running_hackathon.Matching.{EventMatch, match_event}
use running_hackathon.Matching.Chosen.{match_event-All}
use running_hackathon.Activity.{
  is_offer_of, is_candidate, sooner, candidate_events, offered, add_suggestion,
}
use running_hackathon.Brain.Suggest.{candidate_limit, suggest, suggest_event}

-- How often an event was suggested to somebody.
abbrev pub times_offered : ℕ → ℕ → Store → ℕ
times_offered user_id event_id s = Sql.count (is_offer_of user_id event_id) s.suggestions.rows

All-take {ℓ κ} : {A : Type ℓ} (P : A → Type κ) (n : ℕ) (xs : List A) → All P xs → All P (take n xs)
All-take P zero xs h = tt
All-take P (suc n) [] h = tt
All-take P (suc n) (x ∷ xs) (p, ps) = (p, All-take P n xs ps)

All-any {ℓ} : {A : Type ℓ} (xs : List A) → All (λ (x : A). Unit {0}) xs
All-any [] = tt
All-any (x ∷ xs) = (tt, All-any xs)

candidates-All :
    (user_id limit : ℕ) (now : Time) (s : Store)
    → All
        (λ (e : Event). is_candidate user_id now s e ≡ true)
        (candidate_events user_id limit now s)
unfolding candidate_events
candidates-All user_id limit now s =
    All-take (λ (e : Event). is_candidate user_id now s e ≡ true) limit _
      (All-order_by (λ (e : Event). is_candidate user_id now s e ≡ true) sooner _
        (All-mono (λ (e : Event). Unit {0} × (is_candidate user_id now s e ≡ true))
          (λ e. is_candidate user_id now s e ≡ true) (λ e c. c.1)
          (Sql.select (is_candidate user_id now s) s.events.rows)
          (All-select (λ (e : Event). Unit {0}) (is_candidate user_id now s) s.events.rows
            (All-any s.events.rows))))

ok-inj : {a b : EventMatch} → ◌≡◌ {A = Result EventMatch} (ok a) (ok b) → a ≡ b
ok-inj e = cc

suggest-offered :
    (r : Result EventMatch) (u : User) (now : Time) (s : Store) (m : EventMatch)
    → (suggest r u now s).0 ≡ ok m
    → (r ≡ ok m)
      × (times_offered u.id m.event.id (suggest r u now s).1 ≡ times_offered u.id m.event.id s + 1)
unfolding suggest add_suggestion Sql.insert
suggest-offered (err e) u now s m h = absurd (cc)
suggest-offered (ok n) u now s m h =
    let same : n ≡ m = ok-inj h in
    let own : is_offer_of u.id m.event.id (offered u.id n.event.id now s.suggestions.next_id)
        ≡ true =
      ground (arith, ap (λ (x : EventMatch). x.event.id) same) in
    (
      h,
      count-snoc (is_offer_of u.id m.event.id) s.suggestions.rows
            (offered u.id n.event.id now s.suggestions.next_id)
          ∙ ap (λ (b : Bool). times_offered u.id m.event.id s + (if b then 1 else 0)) own,
    )

-- An event that is suggested has not begun and was never suggested to that person, and from then on it counts
-- as suggested once.
pub suggest_event-fresh :
    (u : User) (now : Time) (s : Store) (m : EventMatch)
    → (suggest_event u now s).0 ≡ ok m
    → (now ≤ m.event.starts_at)
      × (times_offered u.id m.event.id s ≡ 0)
      × (times_offered u.id m.event.id (suggest_event u now s).1 ≡ 1)
unfolding suggest_event is_candidate
suggest_event-fresh u now s m h =
    let (found, grown) =
      suggest-offered (match_event u (candidate_events u.id candidate_limit now s) now) u now s m
        h in
    let candidate =
      match_event-All (λ (e : Event). is_candidate u.id now s e ≡ true) u
        (candidate_events u.id candidate_limit now s) now m
        (candidates-All u.id candidate_limit now s) found in
    (ground (arith, candidate), ground (arith, candidate), ground (arith, candidate, grown))

-- Of two suggestions to one person, with no suggestion forgotten between them, the second is another event.
pub suggest_event-twice :
    (u : User) (now later : Time) (s t : Store) (m n : EventMatch)
    → (suggest_event u now s).0 ≡ ok m
    → times_offered u.id m.event.id (suggest_event u now s).1 ≤ times_offered u.id m.event.id t
    → (suggest_event u later t).0 ≡ ok n
    → n.event.id ≢ m.event.id
suggest_event-twice u now later s t m n h kept k same =
    let first = suggest_event-fresh u now s m h in
    let second = suggest_event-fresh u later t n k in
    let unseen : times_offered u.id m.event.id t ≡ 0 =
      subst (λ (i : ℕ). times_offered u.id i t ≡ 0) same second.1 in
    absurd (omega (arith, first.2, kept, unseen))
