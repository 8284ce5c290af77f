-- ===== src/Server/SignIn/Countdown.antt =====
-- auth_http.go, tooManyCodes: the countdown that a refused client is shown.
use running_hackathon.Prelude.{◌+◌, ◌*◌, ◌/◌, ◌≤◌, String, true, false, ◌≡◌, arith, length}
use running_hackathon.Clock.{Time, Duration, second}
use running_hackathon.Limiter.{IpLimiter, take_hit, allow}
use running_hackathon.Limiter.Waits.{take_hit-wait}
use running_hackathon.Server.SignIn.{wait_seconds}

-- The seconds shown are the wait to the nearest second: half a second short at most.
shown-wait_le :
    (now : Time) (wait : Duration) → now + wait ≤ now + wait_seconds wait * second + second / 2
shown-wait_le now wait = ground arith

-- The countdown that a client is shown is at most half a second short: where the limit is at least one and
-- the key has no more hits on file than the limit, the next attempt of a key that was refused is let
-- through after the seconds shown and half a second more.
pub take_hit-shown :
    (key : String) (now : Time) (wait : Duration) (l : IpLimiter)
    → 1 ≤ l.limit
    → length (l.hits key) ≤ l.limit
    → (take_hit key now l).0 ≡ (false, wait)
    → (allow key (now + wait_seconds wait * second + second / 2) (take_hit key now l).1).0 ≡ true
take_hit-shown key now wait l some_allowed bounded refused =
    take_hit-wait key now (now + wait_seconds wait * second + second / 2) wait l some_allowed
      bounded refused (shown-wait_le now wait)
