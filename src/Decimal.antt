-- ===== src/Decimal.antt =====
-- Sprintf's %d for a number from 0 up; the number itself is fuel enough, since each digit makes the rest
-- smaller.
use Prim.Native.String.{slice}
use running_hackathon.Prelude.{ℕ, zero, suc, ◌/◌, ◌%◌, String, ltb, if◌then◌else◌}
use running_hackathon.Str.{◌+s◌}

abbrev digit : ℕ → String
digit n = slice "0123456789" n 1

decimal_from : ℕ → ℕ → String
decimal_from zero n = digit (n % 10)
decimal_from (suc fuel) n =
    let rest = decimal_from fuel (n / 10) in if ltb n 10 then digit n else rest +s digit (n % 10)

unfoldable pub decimal : ℕ → String
unfolding decimal_from
decimal n = decimal_from n n
