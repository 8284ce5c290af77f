-- ===== src/Limiter/Waits.antt =====
-- auth_http.go, ipLimiter.take: the wait that goes with a refusal.
use mathlib.Core.Path.{subst}
use running_hackathon.Prelude.{
  leb→le, ℕ, ◌+◌, ◌-◌, ◌≤◌, ◌<◌, String, Bool, true, false, ◌≡◌, refl, sym, ap, ◌∙◌, List, [], ◌∷◌,
  ◌++◌, arith, ltb, leb, length, length-append, str_eq, eq_refl, if◌then◌else◌, Bool-cases, inl,
  inr,
}
use running_hackathon.Clock.{Time, Duration, second}
use running_hackathon.Limiter.{IpLimiter, kept, with_hits, wait_for, take_hit, allow}

pub length-kept-le :
    (window : Duration) (now : Time) (times : List Time)
    → length (kept window now times) ≤ length times
unfolding kept
length-kept-le window now [] = omega arith
length-kept-le window now (t ∷ times) = ground (arith, length-kept-le window now times)

module _ (key : String) (now : Time) (l : IpLimiter) where
  refused-by :
      leb l.limit (length (kept l.window now (l.hits key))) ≡ true
      → take_hit key now l ≡ (
        (false, wait_for l.window now (kept l.window now (l.hits key))),
        with_hits key (kept l.window now (l.hits key)) l,
      )
  unfolding take_hit
  refused-by e = rw e refl

  admitted-by :
      leb l.limit (length (kept l.window now (l.hits key))) ≡ false
      → take_hit key now l
        ≡ ((true, 0), with_hits key (kept l.window now (l.hits key) ++ now ∷ []) l)
  unfolding take_hit
  admitted-by e = rw e refl

-- After the wait the oldest hit is outside the window.
wait-fewer :
    (window : Duration) (now later : Time) (times : List Time)
    → 1 ≤ length times
    → now + wait_for window now times ≤ later
    → length (kept window later times) < length times
unfolding kept
wait-fewer window now later [] h waited = omega (arith, h)
wait-fewer window now later (oldest ∷ times) h waited =
    let past = gone (oldest + window) waited in
    rw past (omega (arith, length-kept-le window later times))
  where
    gone :
        (end : ℕ)
        → now + (if ltb (end - now) second then second else end - now) ≤ later
        → ltb later end ≡ false
    gone end h = ground arith

same_key-hits :
    (key : String) (times : List Time) (l : IpLimiter) → (with_hits key times l).hits key ≡ times
same_key-hits key times l = rw (eq_refl key) refl

after_refusal :
    (key : String) (later : Time) (times : List Time) (l : IpLimiter)
    → length (kept l.window later times) < l.limit
    → (allow key later (with_hits key times l)).0 ≡ true
unfolding allow
after_refusal key later times l h =
    ap (λ (r : (Bool × Duration) × IpLimiter). r.0.0)
      (admitted-by key later (with_hits key times l) (rw (same_key-hits key times l) (below h)))
  where
    below : {n : ℕ} → n < l.limit → leb l.limit n ≡ false
    below k = ground arith

other_key-hits :
    (key other : String) (times : List Time) (l : IpLimiter)
    → str_eq other key ≡ false
    → (with_hits key times l).hits other ≡ l.hits other
other_key-hits key other times l e = rw e refl

-- An attempt takes no key over the limit that was not over it before, and leaves the hits of every
-- other key alone.
pub take_hit-le :
    (key other : String) (now : Time) (l : IpLimiter)
    → str_eq other key ≡ false
    → length (l.hits key) ≤ l.limit
    → (length ((take_hit key now l).1.hits key) ≤ l.limit)
      × ((take_hit key now l).1.hits other ≡ l.hits other)
take_hit-le key other now l differs h = elim (Bool-cases (leb l.limit (length times))) [
  | inl e ↦ rw (refused-by key now l e) (
    rw (same_key-hits key times l) (omega (arith, h, length-kept-le l.window now (l.hits key))),
    other_key-hits key other times l differs,
  )
  | inr e ↦ rw (admitted-by key now l e) (
    rw (same_key-hits key (times ++ now ∷ []) l)
        (one_more (length times) _ e (length-append times (now ∷ []))),
    other_key-hits key other (times ++ now ∷ []) l differs,
  )
]
  where
    times : List Time
    times = kept l.window now (l.hits key)

    one_more : (n m : ℕ) → leb l.limit n ≡ false → m ≡ n + 1 → m ≤ l.limit
    one_more n m e k = ground arith

true-ne-false : ◌≡◌ {A = Bool} true false → ⊥
true-ne-false h = cc

-- The wait that goes with a refusal is enough: where the limit is at least one and the key has no more hits on
-- file than the limit, an attempt of a key that was refused is let through then and at any later time, if
-- it is the next one.
pub take_hit-wait :
    (key : String) (now later : Time) (wait : Duration) (l : IpLimiter)
    → 1 ≤ l.limit
    → length (l.hits key) ≤ l.limit
    → (take_hit key now l).0 ≡ (false, wait)
    → now + wait ≤ later
    → (allow key later (take_hit key now l).1).0 ≡ true
take_hit-wait key now later wait l some_allowed bounded refused waited =
    elim (Bool-cases (leb l.limit (length times))) [
      | inr e ↦ absurd (
          true-ne-false (
            sym (ap (λ (r : (Bool × Duration) × IpLimiter). r.0.0) (admitted-by key now l e))
            ∙ ap (λ (r : Bool × Duration). r.0) refused))
      | inl e ↦
          let same = ap (λ (r : (Bool × Duration) × IpLimiter). r.0.1) (refused-by key now l e) in
          let wait_is = sym same ∙ ap (λ (r : Bool × Duration). r.1) refused in
          rw (refused-by key now l e) (
            after_refusal key later times l (
              shorter e (λ some_hit.
                wait-fewer l.window now later times some_hit
                  (subst (λ (d : Duration). now + d ≤ later) (sym wait_is) waited))))
    ]
  where
    times : List Time
    times = kept l.window now (l.hits key)

    shorter :
        {n : ℕ}
        → leb l.limit (length times) ≡ true
        → (1 ≤ length times → n < length times)
        → n < l.limit
    shorter e h =
        let few = length-kept-le l.window now (l.hits key) in
        let full = leb→le l.limit (length times) e in
        omega (arith, few, full, some_allowed, bounded, h (omega (arith, full, some_allowed)))
