-- ===== src/Prelude/Clock.antt =====
-- `time.Time` as the number of nanoseconds since Go's zero time, so that the zero time is 0.
-- Instants before the year 1 are left out, and so is the location, which no order of instants reads.
use Prim.Native.Nat.{ℕ, ◌*◌, ◌-◌, ◌/◌, min}
use mathlib.Core.Bool.{Bool}
use zensor_server.Prelude.Tests.{ltb, leb, nat_beq, if◌then◌else◌}
use zensor_server.Prelude.Int.{ℤ, pos, negate, int_max}

abbrev pub Time : Type 0
Time = ℕ

-- `t.IsZero()`
abbrev pub is_zero : Time → Bool
is_zero t = nat_beq t 0

-- `t.Before(u)` and `t.After(u)`
abbrev pub before : Time → Time → Bool
before t u = ltb t u

abbrev pub after : Time → Time → Bool
after t u = ltb u t

-- Durations in nanoseconds.
abbrev pub second : ℕ
second = 1000000000

abbrev pub day : ℕ
day = 86400 * second

-- `t.Sub(u)` where `u ≤ t`: the duration saturates at the largest `int64`.
abbrev pub elapsed : Time → Time → ℕ
elapsed t u = min (t - u) int_max

-- `int(t.Sub(u).Hours() / 24)`, truncated towards zero. Go divides in `float64`; the quotient is
-- exact here, and differs at most where the duration lies microseconds below a whole day.
abbrev pub whole_days : Time → Time → ℤ
whole_days t u = if leb u t then pos (elapsed t u / day) else negate (elapsed u t / day)
