-- ===== src/Limiter/Verdict.antt =====
-- auth_http.go, throttleCode: what the verdict depends on.
use running_hackathon.Prelude.{String, Bool, true, false, ◌≡◌, ◌≢◌, refl}
use running_hackathon.Clock.{Time, Duration}
use running_hackathon.Db.{Store}
use running_hackathon.Limiter.{
  IpLimiter, Limits, pass, blocked, too_soon, too_many, by_budget, by_cooldown, by_client, take_hit,
  allow, throttle_code,
}

too_many-ne-pass : {d : Duration} → too_many d ≢ pass
too_many-ne-pass e = cc

too_soon-ne-pass : {d : Duration} → too_soon d ≢ pass
too_soon-ne-pass e = cc

blocked-ne-pass : blocked ≢ pass
blocked-ne-pass e = cc

module _ (phone : String) (now : Time) where
  budget-verdict :
      (r : (Bool × Duration) × IpLimiter) (limits : Limits) (s t : Store)
      → (by_budget r phone now limits s).0 ≡ (by_budget r phone now limits t).0
  unfolding by_budget
  budget-verdict ((true, wait), l) limits s t = refl
  budget-verdict ((false, wait), l) limits s t = refl

  cooldown-verdict :
      (r : (Bool × Duration) × IpLimiter) (limits : Limits) (s t : Store)
      → (by_cooldown r phone now limits s).0 ≡ (by_cooldown r phone now limits t).0
  unfolding by_cooldown
  cooldown-verdict ((true, wait), l) limits s t =
      budget-verdict (take_hit phone now limits.code_budget) (record limits { code_cooldown = l }) s
        t
  cooldown-verdict ((false, wait), l) limits s t = refl

  client-verdict :
      (r : Bool × IpLimiter) (limits : Limits) (s t : Store)
      → (by_client r phone now limits s).0 ≡ (by_client r phone now limits t).0
  unfolding by_client
  client-verdict (true, l) limits s t =
      cooldown-verdict (take_hit phone now limits.code_cooldown)
        (record limits { login_limiter = l }) s t
  client-verdict (false, l) limits s t = refl

  -- The verdict on a client is the same whatever the store holds.
  pub throttle-verdict :
      (client : String) (limits : Limits) (s t : Store)
      → (throttle_code client phone now limits s).0 ≡ (throttle_code client phone now limits t).0
  unfolding throttle_code
  throttle-verdict client limits s t =
      client-verdict (allow client now limits.login_limiter) limits s t

  budget-store :
      (r : (Bool × Duration) × IpLimiter) (limits : Limits) (s : Store)
      → (by_budget r phone now limits s).0 ≡ pass
      → (by_budget r phone now limits s).2 ≡ s
  unfolding by_budget
  budget-store ((true, wait), l) limits s h = refl
  budget-store ((false, wait), l) limits s h = absurd (too_many-ne-pass h)

  cooldown-store :
      (r : (Bool × Duration) × IpLimiter) (limits : Limits) (s : Store)
      → (by_cooldown r phone now limits s).0 ≡ pass
      → (by_cooldown r phone now limits s).2 ≡ s
  unfolding by_cooldown
  cooldown-store ((true, wait), l) limits s h =
      budget-store (take_hit phone now limits.code_budget) (record limits { code_cooldown = l }) s h
  cooldown-store ((false, wait), l) limits s h = absurd (too_soon-ne-pass h)

  client-store :
      (r : Bool × IpLimiter) (limits : Limits) (s : Store)
      → (by_client r phone now limits s).0 ≡ pass
      → (by_client r phone now limits s).2 ≡ s
  unfolding by_client
  client-store (true, l) limits s h =
      cooldown-store (take_hit phone now limits.code_cooldown) (record limits { login_limiter = l })
        s h
  client-store (false, l) limits s h = absurd (blocked-ne-pass h)

  -- A client that may go on leaves the store as it was.
  pub throttle-store :
      (client : String) (limits : Limits) (s : Store)
      → (throttle_code client phone now limits s).0 ≡ pass
      → (throttle_code client phone now limits s).2 ≡ s
  unfolding throttle_code
  throttle-store client limits s h = client-store (allow client now limits.login_limiter) limits s h
