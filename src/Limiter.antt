-- ===== src/Limiter.antt =====
-- auth_http.go: ipLimiter, the limit on how often one client may try, and throttleCode, the three limits in
-- front of a request for a code. The map of hits is a function, which answers a missing key by no hits.
pub mod Waits
pub mod Verdict
use running_hackathon.Prelude.{
  ℕ, ◌+◌, ◌-◌, ◌*◌, String, Bool, true, false, List, [], ◌∷◌, ◌++◌, ltb, leb, length, str_eq,
  if◌then◌else◌,
}
use running_hackathon.Clock.{Time, Duration, second}
use running_hackathon.Db.{Store}
use running_hackathon.Auth.Sessions.{record_auth_event}

pub record IpLimiter : Type 0 where
  pub hits : String → List Time
  pub limit : ℕ
  pub window : Duration

abbrev pub new_ip_limiter : ℕ → Duration → IpLimiter
new_ip_limiter limit window = record { hits = λ key. []; limit = limit; window = window }

abbrev pub in_window : Duration → Time → Time → Bool
in_window window now t = ltb now (t + window)

-- The hits after `now.Add(-window)`.
unfoldable pub kept : Duration → Time → List Time → List Time
kept window now [] = []
kept window now (t ∷ times) =
    let rest = kept window now times in if in_window window now t then t ∷ rest else rest

abbrev pub with_hits : String → List Time → IpLimiter → IpLimiter
with_hits key times l = record l { hits = λ k. if str_eq k key then times else l.hits k }

-- window - now.Sub(oldest), which is positive where the oldest hit is inside the window, and a second at
-- least. With a limit of 0 Go would index an empty list here.
abbrev pub wait_for : Duration → Time → List Time → Duration
wait_for window now [] = second
wait_for window now (oldest ∷ times) =
    let wait = oldest + window - now in if ltb wait second then second else wait

unfoldable pub take_hit : String → Time → IpLimiter → (Bool × Duration) × IpLimiter
take_hit key now l =
    let times = kept l.window now (l.hits key) in
    if leb l.limit (length times)
    then ((false, wait_for l.window now times), with_hits key times l)
    else ((true, 0), with_hits key (times ++ now ∷ []) l)

unfoldable pub allow : String → Time → IpLimiter → Bool × IpLimiter
unfolding take_hit
allow key now l = let taken = take_hit key now l in (taken.0.0, taken.1)

-- The limiters of the server.
pub record Limits : Type 0 where
  pub login_limiter : IpLimiter
  pub code_cooldown : IpLimiter
  pub code_budget : IpLimiter

-- What the client is told: to go on, or to try later, with the wait where there is a countdown.
pub data Throttle : Type 0 where
  pass blocked : Throttle
  too_soon too_many : Duration → Throttle

by_budget :
    (Bool × Duration) × IpLimiter → String → Time → Limits → Store → Throttle × Limits × Store
by_budget ((true, wait), l) phone now limits s = (pass, record limits { code_budget = l }, s)
by_budget ((false, wait), l) phone now limits s = (
  too_many wait,
  record limits { code_budget = l },
  record_auth_event phone 0 "code_rate_limited" "phone" now s,
)

by_cooldown :
    (Bool × Duration) × IpLimiter → String → Time → Limits → Store → Throttle × Limits × Store
unfolding by_budget
by_cooldown ((true, wait), l) phone now limits s =
    by_budget (take_hit phone now limits.code_budget) phone now
      (record limits { code_cooldown = l }) s
by_cooldown ((false, wait), l) phone now limits s = (
  too_soon wait,
  record limits { code_cooldown = l },
  record_auth_event phone 0 "code_rate_limited" "cooldown" now s,
)

by_client : Bool × IpLimiter → String → Time → Limits → Store → Throttle × Limits × Store
unfolding by_cooldown
by_client (true, l) phone now limits s =
    by_cooldown (take_hit phone now limits.code_cooldown) phone now
      (record limits { login_limiter = l }) s
by_client (false, l) phone now limits s = (
  blocked,
  record limits { login_limiter = l },
  record_auth_event phone 0 "code_rate_limited" "ip" now s,
)

unfoldable pub throttle_code : String → String → Time → Limits → Store → Throttle × Limits × Store
unfolding by_client
throttle_code client phone now limits s =
    by_client (allow client now limits.login_limiter) phone now limits s
