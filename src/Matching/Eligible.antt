-- ===== src/Matching/Eligible.antt =====
-- What is suggested may be suggested, and the list is in order.
use mathlib.Core.Path.{subst}
use running_hackathon.Prelude.{
  ◌<◌, String, Bool, true, false, ◌≡◌, refl, sym, ◌∙◌, none, some, List, [], ◌∷◌, arith, All,
  All-mono, str_eq, Bool-cases, Option-cases, inl, inr,
}
use running_hackathon.Clock.{Time}
use running_hackathon.Str.{trim_space}
use running_hackathon.Interests.{interest_list}
use running_hackathon.Sql.Order.{All-order_by, Sorted, IsOrder, order_by-Sorted}
use running_hackathon.Db.{User, Event}
use running_hackathon.Matching.Rules.{AudienceRule, audience_rules, contains_any, opted_in}
use running_hackathon.Matching.Rules.OptedIn.{IsOptedIn, opted_in-IsOptedIn}
use running_hackathon.Matching.{
  EventMatch, split_preferences, haystack, is_unwanted, audience, score_event, score_all,
  better_match, rank_events,
}

-- An event that may be offered: it has not begun, it has a link, the person said no to nothing in it, and
-- for every audience that its text marks it for, an interest of the person overlaps an opt-in word.
pub record IsEligible (wanted unwanted : List String) (now : Time) (m : EventMatch) : Type 0 where
  pub upcoming : now < m.event.starts_at
  pub linked : str_eq (trim_space m.event.url) "" ≡ false
  pub not_unwanted : is_unwanted (haystack m.event) unwanted ≡ false
  pub in_audience :
      All
        (λ (rule : AudienceRule).
          contains_any (haystack m.event) rule.markers ≡ true → IsOptedIn wanted rule.opt_in)
        audience_rules

none-ne-some {ℓ} : {A : Type ℓ} {a : A} → none ≡ some a → ⊥
none-ne-some e = cc

true-ne-false : ◌≡◌ {A = Bool} true false → ⊥
true-ne-false e = cc

module _ (hay : String) (wanted : List String) (rule : AudienceRule)
    (rules : List AudienceRule) where
  audience_unmarked :
      contains_any hay rule.markers ≡ false
      → audience hay wanted (rule ∷ rules) ≡ audience hay wanted rules
  unfolding audience
  audience_unmarked e = rw e refl

  audience_outside :
      contains_any hay rule.markers ≡ true
      → opted_in wanted rule.opt_in ≡ false
      → audience hay wanted (rule ∷ rules) ≡ none
  unfolding audience
  audience_outside e f = rw e (rw f refl)

  audience-none : audience hay wanted rules ≡ none → audience hay wanted (rule ∷ rules) ≡ none
  unfolding audience
  audience-none h = ground arith

audience-in :
    (hay : String) (wanted : List String) (rules : List AudienceRule) (reasons : List String)
    → audience hay wanted rules ≡ some reasons
    → All
        (λ (rule : AudienceRule).
          contains_any hay rule.markers ≡ true → opted_in wanted rule.opt_in ≡ true)
        rules
audience-in hay wanted [] reasons h = tt
audience-in hay wanted (rule ∷ rules) reasons h = (here, there (audience-in hay wanted rules))
  where
    here : contains_any hay rule.markers ≡ true → opted_in wanted rule.opt_in ≡ true
    here marked = elim (Bool-cases (opted_in wanted rule.opt_in)) [
      | inl e ↦ e
      | inr e ↦ absurd (none-ne-some (sym (audience_outside hay wanted rule rules marked e) ∙ h))
    ]

    there :
        ((rest : List String)
          → audience hay wanted rules ≡ some rest
          → All
              (λ (r : AudienceRule).
                contains_any hay r.markers ≡ true → opted_in wanted r.opt_in ≡ true)
              rules)
        → All
            (λ (rule : AudienceRule).
              contains_any hay rule.markers ≡ true → opted_in wanted rule.opt_in ≡ true)
            rules
    there onward = elim (Option-cases (audience hay wanted rules)) [
      | inl e ↦ absurd (none-ne-some (sym (audience-none hay wanted rule rules e) ∙ h))
      | inr (rest, e) ↦ onward rest e
    ]

module _ (e : Event) (wanted unwanted : List String) (now : Time) (m : EventMatch) where
  pub score_event-event : score_event e wanted unwanted now ≡ some m → e ≡ m.event
  unfolding score_event
  score_event-event h = ground arith

  score_event-upcoming : score_event e wanted unwanted now ≡ some m → now < e.starts_at
  unfolding score_event
  score_event-upcoming h = ground arith

  score_event-linked :
      score_event e wanted unwanted now ≡ some m → str_eq (trim_space e.url) "" ≡ false
  unfolding score_event
  score_event-linked h = ground arith

  score_event-wanted :
      score_event e wanted unwanted now ≡ some m → is_unwanted (haystack e) unwanted ≡ false
  unfolding score_event
  score_event-wanted h = ground arith

  score_event-audience :
      score_event e wanted unwanted now ≡ some m
      → (reasons : List String) × (audience (haystack e) wanted audience_rules ≡ some reasons)
  unfolding score_event
  score_event-audience h = elim (Option-cases (audience (haystack e) wanted audience_rules)) [
    | inr found ↦ found
    | inl missing ↦ absurd (ground arith)
  ]

  score_event-IsEligible :
      score_event e wanted unwanted now ≡ some m → IsEligible wanted unwanted now m
  score_event-IsEligible h =
      let same = score_event-event h in
      let marked = score_event-audience h in
      record {
        upcoming = subst (λ (a : Event). now < a.starts_at) same (score_event-upcoming h);
        linked =
            subst (λ (a : Event). str_eq (trim_space a.url) "" ≡ false) same (score_event-linked h);
        not_unwanted =
            subst (λ (a : Event). is_unwanted (haystack a) unwanted ≡ false) same
              (score_event-wanted h);
        in_audience =
            subst
              (λ (a : Event).
                All
                  (λ (rule : AudienceRule).
                    contains_any (haystack a) rule.markers ≡ true → IsOptedIn wanted rule.opt_in)
                  audience_rules)
              same
              (All-mono
                (λ (rule : AudienceRule).
                  contains_any (haystack e) rule.markers ≡ true
                  → opted_in wanted rule.opt_in ≡ true)
                (λ (rule : AudienceRule).
                  contains_any (haystack e) rule.markers ≡ true → IsOptedIn wanted rule.opt_in)
                (λ rule named marks. opted_in-IsOptedIn wanted rule.opt_in (named marks))
                audience_rules (audience-in (haystack e) wanted audience_rules marked.0 marked.1));
      }

score_all-IsEligible :
    (candidates : List Event) (wanted unwanted : List String) (now : Time) (out : List EventMatch)
    → All (IsEligible wanted unwanted now) out
    → All (IsEligible wanted unwanted now) (score_all candidates wanted unwanted now out)
unfolding score_all
score_all-IsEligible [] wanted unwanted now out h = h
score_all-IsEligible (e ∷ candidates) wanted unwanted now out h =
    elim (Option-cases (score_event e wanted unwanted now)) [
      | inl k ↦ rw k (score_all-IsEligible candidates wanted unwanted now out h)
      | inr (m, k) ↦ rw k (
          score_all-IsEligible candidates wanted unwanted now (m ∷ out)
            (score_event-IsEligible e wanted unwanted now m k, h))
    ]

-- Whatever is ranked passes every filter: it has not begun, has a link, mentions nothing that the person said
-- no to, and for every audience that its text marks it for, the text of some interest of the person contains
-- one of the audience's opt-in words or is contained in one, by substrings, whole words or not.
pub rank_events-IsEligible :
    (u : User) (candidates : List Event) (now : Time)
    → All
        (IsEligible
          (split_preferences (interest_list u)).0
          (split_preferences (interest_list u)).1
          now)
        (rank_events u candidates now)
unfolding rank_events
rank_events-IsEligible u candidates now =
    let preferences = split_preferences (interest_list u) in
    All-order_by (IsEligible preferences.0 preferences.1 now) better_match
      (score_all candidates preferences.0 preferences.1 now [])
      (score_all-IsEligible candidates preferences.0 preferences.1 now [] tt)

better-IsOrder : IsOrder better_match
better-IsOrder = record { asym = λ r s e. ground arith; trans = λ r s t e f. ground arith }

-- The ranking is in order: nothing has a higher score than what stands ahead of it, nor the same score and
-- an earlier start.
pub rank_events-Sorted :
    (u : User) (candidates : List Event) (now : Time)
    → Sorted better_match (rank_events u candidates now)
unfolding rank_events
rank_events-Sorted u candidates now =
    let preferences = split_preferences (interest_list u) in
    order_by-Sorted better_match better-IsOrder
      (score_all candidates preferences.0 preferences.1 now [])
