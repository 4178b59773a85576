-- ===== src/Maintenance/Schedule.antt =====
-- `Schedule` of internal/maintenance/domain/value_objects.go: a start date and an interval, and the
-- loop of `Next` that looks for the first occurrence after a reference.
pub mod Occurrences
mod Tests
use zensor_server.Prelude.{
  ℕ, zero, suc, Bool, true, false, ◌||◌, Option, none, some, ℤ, pos, leb_ℤ, mul_int, Time, is_zero,
  before, ◌==◌, nat_eq, if◌then◌else◌, sentinel, start_date_required, interval_required,
  invalid_recurrence_unit, Result, ok, err,
}
use zensor_server.Maintenance.Calendar.{Calendar}

-- `RecurrenceUnit` is a Go string: `other` is any text but the five constants.
pub data RecurrenceUnit : Type 0 where
  day_unit week_unit month_unit quarter_unit year_unit : RecurrenceUnit
  other : RecurrenceUnit

pub record Schedule : Type 0 where
  pub start_date : Time
  pub every : ℤ
  pub unit : RecurrenceUnit

-- The `switch` of `validate`.
abbrev pub is_known : RecurrenceUnit → Bool
is_known other = false
is_known _ = true

unfoldable pub validate : Schedule → Result (Unit {0})
validate s =
    if is_zero s.start_date
    then err (sentinel start_date_required)
    else if leb_ℤ s.every (pos 0)
    then err (sentinel interval_required)
    else if is_known s.unit
    then ok tt
    else err (sentinel invalid_recurrence_unit)

module _ (c : Calendar) where
  open c use {add_date}

  -- The `switch` of `advance`.
  abbrev advance_by : RecurrenceUnit → ℤ → Time → Time
  advance_by day_unit n t = add_date t (pos 0) (pos 0) n
  advance_by week_unit n t = add_date t (pos 0) (pos 0) (mul_int n 7)
  advance_by month_unit n t = add_date t (pos 0) n (pos 0)
  advance_by quarter_unit n t = add_date t (pos 0) (mul_int n 3) (pos 0)
  advance_by year_unit n t = add_date t n (pos 0) (pos 0)
  advance_by other n t = t

  unfoldable pub advance : Schedule → Time → Time
  advance s t = advance_by s.unit s.every t

  -- The `for` loop of `Next`, with fuel; `none` means that the fuel ran out.
  unfoldable pub next_loop : ℕ → Schedule → Time → Time → Option Time
  next_loop zero s reference next = none
  next_loop (suc fuel) s reference next =
      let rest = next_loop fuel s reference (advance s next) in
      if before next reference || next == reference then rest else some next

  -- `Next`.
  unfoldable pub next : ℕ → Schedule → Time → Result (Option Time)
  next fuel s reference = elim (validate s) [
    | ok _ ↦ ok (next_loop fuel s reference s.start_date)
    | err e ↦ err e
  ]
