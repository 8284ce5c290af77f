-- ===== src/Clock.antt =====
-- Go's `time.Time` and `time.Duration` as numbers of nanoseconds: a `Time` counts from Go's zero
-- time (1 January of year 1), so `t.IsZero()` is the test for 0. A comparison with `now.Add(-d)` is
-- written with `d` added on the other side, since `-` on ℕ stops at 0.
use running_hackathon.Prelude.{ℕ, ◌*◌, Bool, ◌==◌}

abbrev pub Time : Type 0
Time = ℕ

abbrev pub Duration : Type 0
Duration = ℕ

abbrev pub second : Duration
second = 1_000_000_000

abbrev pub minute : Duration
minute = 60 * second

abbrev pub hour : Duration
hour = 60 * minute

abbrev pub day : Duration
day = 24 * hour

abbrev pub is_zero_time : Time → Bool
is_zero_time t = t == 0

-- time.Unix(0, 0)
abbrev pub unix_epoch : Time
unix_epoch = 62_135_596_800 * second
