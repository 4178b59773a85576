-- ===== src/Maintenance/Schedule/Tests.antt =====
-- Runs of `Schedule`, and the theorems at a concrete schedule.
use zensor_server.Prelude.{ℕ, zero, suc, ◌*◌, ◌<◌, ◌≤◌, ◌≡◌, refl, some, pos, day, ok, arith}
use zensor_server.Maintenance.Calendar.{plain_calendar}
use zensor_server.Maintenance.Schedule.{Schedule, week_unit, next, next_loop, advance, validate}
use zensor_server.Maintenance.Schedule.Occurrences.{
  IsValid, IsFirstAfter, occurrence, next-IsFirstAfter,
}
use zensor_server.Prelude.{mul_int}

abbrev fortnightly : Schedule
fortnightly = record { start_date = 3 * day; every = pos 2; unit = week_unit }

fortnightly-IsValid : IsValid plain_calendar fortnightly
fortnightly-IsValid = record {
  started = omega arith;
  interval = 2;
  interval_lem = refl;
  interval_pos = omega arith;
  interval_fits = omega arith;
  unit_known = refl;
}

next_fortnight : next plain_calendar 4 fortnightly (17 * day) ≡ ok (some (31 * day))
unfolding next next_loop advance validate mul_int
next_fortnight = refl

next-IsFirstAfter_example :
    (j : ℕ) × (next plain_calendar (suc (18 * day)) fortnightly (18 * day)
      ≡ ok (some (occurrence plain_calendar fortnightly j)))
    × IsFirstAfter plain_calendar fortnightly (18 * day) j
next-IsFirstAfter_example =
    next-IsFirstAfter plain_calendar fortnightly fortnightly-IsValid (18 * day) (omega arith)

second_date-IsFirstAfter : IsFirstAfter plain_calendar fortnightly (18 * day) 2
unfolding advance mul_int
second_date-IsFirstAfter = record { later = omega arith; least = earlier }
  where
    earlier : (i : ℕ) → i < 2 → occurrence plain_calendar fortnightly i ≤ 18 * day
    earlier zero h = omega arith
    earlier (suc zero) h = omega arith
    earlier (suc (suc i)) h = absurd (omega arith)
