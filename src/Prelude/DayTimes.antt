-- ===== src/Prelude/DayTimes.antt =====
-- `ParseExecutionTime` of internal/infra/utils/timezone.go: an hour and a minute, such as "14:30", with Go's `strings.Split` on
-- one character and `strconv.Atoi`. An integer beyond 64 bits, on which `Atoi` fails, is out of range in any case.
use Prim.Native.Nat.{ℕ, ◌+◌, ◌-◌, ◌*◌, ◌≤◌}
use native.Mathlib.Omega.{arith}
use Prim.Native.Char.{Char, code}
use Prim.Native.String.{String, [], ◌∷◌}
use mathlib.Core.Path.{◌≡◌, refl}
use mathlib.Core.Bool.{Bool, ◌&&◌}
use mathlib.Core.Option.{Option, none, some}
use mathlib.Core.List.{List}
use zensor_server.Prelude.Tests.{nat_beq, leb, if◌then◌else◌}
use zensor_server.Prelude.Int.{ℤ, pos, negsuc, negate}
use zensor_server.Prelude.Errors.{
  Result, ok, err, sentinel, execution_time_format, hour_out_of_range, minute_out_of_range,
}

-- The part before a character is put before the first of the other parts.
abbrev in_front : Char → List String → List String
in_front c List.[] = List.◌∷◌ (c ∷ []) List.[]
in_front c (List.◌∷◌ part parts) = List.◌∷◌ (c ∷ part) parts

-- `strings.Split(s, ":")`
abbrev pub split_colon : String → List String
split_colon [] = List.◌∷◌ [] List.[]
split_colon (c ∷ s) =
    let parts = split_colon s in if nat_beq (code c) 58 then List.◌∷◌ [] parts else in_front c parts

abbrev pub is_digit : Char → Bool
is_digit c = leb 48 (code c) && leb (code c) 57

-- The value of the digits, after those that have been read.
abbrev pub digits_from : ℕ → String → Option ℕ
digits_from n [] = some n
digits_from n (c ∷ s) =
    let rest = digits_from (n * 10 + (code c - 48)) s in if is_digit c then rest else none

abbrev pub digits : String → Option ℕ
digits [] = none
digits (c ∷ s) = digits_from 0 (c ∷ s)

abbrev pub signed : (ℕ → ℤ) → Option ℕ → Option ℤ
signed sign none = none
signed sign (some n) = some (sign n)

-- `strconv.Atoi`
abbrev pub atoi : String → Option ℤ
atoi [] = none
atoi (c ∷ s) =
    if nat_beq (code c) 43
    then signed pos (digits s)
    else if nat_beq (code c) 45
    then signed negate (digits s)
    else signed pos (digits (c ∷ s))

-- `err != nil || n < 0 || n > high`
abbrev pub up_to : ℕ → Option ℤ → Option ℕ
up_to high none = none
up_to high (some (negsuc n)) = none
up_to high (some (pos n)) = if leb n high then some n else none

abbrev pub day_time : Option ℕ → Option ℕ → Result (ℕ × ℕ)
day_time none minute = err (sentinel hour_out_of_range)
day_time (some hour) none = err (sentinel minute_out_of_range)
day_time (some hour) (some minute) = ok (hour, minute)

abbrev pub parse_parts : List String → Result (ℕ × ℕ)
parse_parts (List.◌∷◌ hour (List.◌∷◌ minute List.[])) =
    day_time (up_to 23 (atoi hour)) (up_to 59 (atoi minute))
parse_parts _ = err (sentinel execution_time_format)

unfoldable pub parse_execution_time : String → Result (ℕ × ℕ)
parse_execution_time text = parse_parts (split_colon text)

half_past : parse_execution_time "14:30" ≡ ok (14, 30)
unfolding parse_execution_time
half_past = refl

too_late : parse_execution_time "24:00" ≡ err (sentinel hour_out_of_range)
unfolding parse_execution_time
too_late = refl

up_to-bound : (high : ℕ) (n : Option ℤ) {m : ℕ} → up_to high n ≡ some m → m ≤ high
up_to-bound high none h = cc
up_to-bound high (some (negsuc n)) h = cc
up_to-bound high (some (pos n)) h = ground (arith, h)

day_time-bounds :
    (hour minute : Option ℕ) {h m : ℕ}
    → day_time hour minute ≡ ok (h, m)
    → (hour ≡ some h) × (minute ≡ some m)
day_time-bounds none minute q = cc
day_time-bounds (some x) none q = cc
day_time-bounds (some x) (some y) q = (ground (arith, q), ground (arith, q))

parse_parts-bounds :
    (parts : List String) {h m : ℕ} → parse_parts parts ≡ ok (h, m) → (h ≤ 23) × (m ≤ 59)
parse_parts-bounds (List.◌∷◌ hour (List.◌∷◌ minute List.[])) q =
    let (e, f) = day_time-bounds (up_to 23 (atoi hour)) (up_to 59 (atoi minute)) q in
    (up_to-bound 23 (atoi hour) e, up_to-bound 59 (atoi minute) f)
parse_parts-bounds List.[] q = cc
parse_parts-bounds (List.◌∷◌ hour List.[]) q = cc
parse_parts-bounds (List.◌∷◌ hour (List.◌∷◌ minute (List.◌∷◌ _ _))) q = cc

-- An execution time that `ParseExecutionTime` accepts is a time of day: its hour is at most 23, and
-- its minute at most 59.
pub parse_execution_time_bounds :
    (text : String) {h m : ℕ} → parse_execution_time text ≡ ok (h, m) → (h ≤ 23) × (m ≤ 59)
unfolding parse_execution_time
parse_execution_time_bounds text q = parse_parts-bounds (split_colon text) q
