-- ===== src/Maintenance/Calendar.antt =====
-- `time.Time.AddDate` of Go's standard library, which the schedules advance by.
use zensor_server.Prelude.{ℕ, ◌+◌, ◌*◌, ◌≤◌, ◌<◌, ℤ, pos, pos_part, int_max, Time, day, arith}

-- Adding a positive number of years, months or days gives a later instant, for amounts up to
-- `max_step` at instants up to `horizon`; past these bounds the standard library wraps around.
pub record Calendar : Type 0 where
  pub add_date : Time → ℤ → ℤ → ℤ → Time
  pub horizon : Time
  pub max_step : ℕ
  pub step_fits : max_step ≤ int_max
  pub add_date_later :
      (t : Time) (y m d : ℕ)
      → t ≤ horizon
      → y ≤ max_step
      → m ≤ max_step
      → d ≤ max_step
      → 0 < y + m + d
      → t < add_date t (pos y) (pos m) (pos d)

-- A calendar whose years have 365 days and whose months have 30, for the examples.
abbrev pub plain_add_date : Time → ℤ → ℤ → ℤ → Time
plain_add_date t y m d = t + (pos_part y * 365 + pos_part m * 30 + pos_part d) * day

pub plain_later :
    (t : Time) (y m d : ℕ) → 0 < y + m + d → t < plain_add_date t (pos y) (pos m) (pos d)
plain_later t y m d h = omega arith

abbrev pub plain_calendar : Calendar
plain_calendar = record {
  add_date = plain_add_date;
  horizon = 1000000 * day;
  max_step = 100000;
  step_fits = omega arith;
  add_date_later = λ t y m d _ _ _ _ h. plain_later t y m d h;
}
