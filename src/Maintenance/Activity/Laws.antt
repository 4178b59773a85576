-- ===== src/Maintenance/Activity/Laws.antt =====
-- What the methods and the builder of `Activity` promise.
use zensor_server.Prelude.{
  ℕ, suc, ◌-◌, ◌*◌, ◌≤◌, ◌<◌, ◌≤ℤ◌, ◌≡◌, ◌≢◌, ◌⊎◌, refl, pos, negsuc, pos_part, err, Err, String,
  true, inl, inr, some, List, [], ◌∷◌, ℤ, int_eq, Time, second, whole_days, ==_iff, contains,
  Result, ok, Result-cases, run_actions, arith,
}
use zensor_server.Maintenance.Calendar.{Calendar}
use zensor_server.Maintenance.Schedule.{
  RecurrenceUnit, day_unit, week_unit, month_unit, quarter_unit, year_unit, other, Schedule,
  is_known, next, validate,
}
use zensor_server.Maintenance.Schedule.Occurrences.{IsValid, next-IsFirstAfter}
use zensor_server.Maintenance.Activity.{
  Activity, is_ready_for_notification, matching_day, new_activity, check_schedule, build,
}

matching_day-contains : (d : ℤ) (ds : List ℤ) → (matching_day d ds).0 ≡ contains ds d
matching_day-contains d [] = refl
matching_day-contains d (x ∷ ds) =
    ground (arith, ==_iff d x, ==_iff x d, matching_day-contains d ds)

matching_day-eq : (d : ℤ) (ds : List ℤ) → (matching_day d ds).0 ≡ true → (matching_day d ds).1 ≡ d
matching_day-eq d [] h = cc
matching_day-eq d (x ∷ ds) h = ground (arith, ==_iff d x, matching_day-eq d ds)

pos_part-eq : (z : ℤ) → pos 1 ≤ℤ z → z ≡ pos (pos_part z)
pos_part-eq (pos n) h = refl
pos_part-eq (negsuc n) h = absurd (omega arith)

-- A start date, a positive interval, and one of the five units.
abbrev pub IsRecurring : Schedule → Type 0
IsRecurring s = (0 < s.start_date) × (pos 1 ≤ℤ s.every) × (s.unit ≢ other)

is_known-ne : (u : RecurrenceUnit) → is_known u ≡ true → u ≢ other
is_known-ne day_unit h e = cc
is_known-ne week_unit h e = cc
is_known-ne month_unit h e = cc
is_known-ne quarter_unit h e = cc
is_known-ne year_unit h e = cc
is_known-ne other h e = cc

is_known-of_ne : (u : RecurrenceUnit) → u ≢ other → is_known u ≡ true
is_known-of_ne day_unit h = refl
is_known-of_ne week_unit h = refl
is_known-of_ne month_unit h = refl
is_known-of_ne quarter_unit h = refl
is_known-of_ne year_unit h = refl
is_known-of_ne other h = absurd (h refl)

validate-IsRecurring : (s : Schedule) → validate s ≡ ok tt → IsRecurring s
unfolding validate
validate-IsRecurring s h =
    (ground (arith, h), ground (arith, h), is_known-ne s.unit (ground (arith, h)))

IsRecurring-validate : (s : Schedule) {e : Err} → IsRecurring s → validate s ≢ err e
unfolding validate
IsRecurring-validate s (began, often, unit) h =
    absurd (ground (arith, is_known-of_ne s.unit unit, h))

IsRecurring-IsValid :
    (c : Calendar) (s : Schedule) → IsRecurring s → pos_part s.every * 7 ≤ c.max_step → IsValid c s
IsRecurring-IsValid c s (began, often, unit) fits = record {
  started = began;
  interval = pos_part s.every;
  interval_lem = pos_part-eq s.every often;
  interval_pos = omega arith;
  interval_fits = fits;
  unit_known = is_known-of_ne s.unit unit;
}

module _ {V : Type 0} where
  check_schedule-validates :
      (c : Calendar) (fuel : ℕ) (now : Time) (x : Activity V) {a : Activity V}
      → check_schedule c fuel now x ≡ ok (some a)
      → validate a.schedule ≡ ok tt
  unfolding next
  check_schedule-validates c fuel now x h = ground arith

  -- An activity is ready for notification exactly if the whole days until the date are among its
  -- notification days, and then it is that number of days that is reported.
  pub is_ready_for_notification_iff :
      (a : Activity V) (scheduled current : Time)
      → let (ready, d) = is_ready_for_notification a scheduled current in
        (ready ≡ contains a.notification_days_before (whole_days scheduled current))
        × (ready ≡ true → d ≡ whole_days scheduled current)
  unfolding is_ready_for_notification
  is_ready_for_notification_iff a scheduled current = (
    matching_day-contains (whole_days scheduled current) a.notification_days_before,
    matching_day-eq (whole_days scheduled current) a.notification_days_before,
  )

  -- `build` accepts no activity whose schedule `validate` refuses.
  pub build_validates :
      (c : Calendar) (fuel : ℕ) (uuid : String) (now : Time)
      (actions : List (Activity V → Result (Activity V))) {a : Activity V}
      → build c fuel uuid now actions ≡ ok (some a)
      → validate a.schedule ≡ ok tt
  unfolding build
  build_validates c fuel uuid now actions h =
      elim (Result-cases (run_actions actions (new_activity uuid now))) [
        | inl (x, ran) ↦ check_schedule-validates c fuel now x (rw (ran, build) at h)
        | inr (x, failed) ↦ ground (arith, failed, h)
      ]

  build-scheduled :
      (c : Calendar) (uuid : String) (now : Time)
      (actions : List (Activity V → Result (Activity V))) (a : Activity V)
      → run_actions actions (new_activity uuid now) ≡ ok a
      → IsValid c a.schedule
      → now ≤ c.horizon
      → build c (suc (now - second)) uuid now actions ≡ ok (some a)
  unfolding build
  build-scheduled c uuid now actions a ran valid h =
      let (j, run, _) = next-IsFirstAfter c a.schedule valid (now - second) (omega arith) in
      rw (ran, build) (ground (arith, run))

  build-refused :
      (c : Calendar) (fuel : ℕ) (uuid : String) (now : Time)
      (actions : List (Activity V → Result (Activity V))) (a : Activity V) {e : Err}
      → run_actions actions (new_activity uuid now) ≡ ok a
      → validate a.schedule ≡ err e
      → build c fuel uuid now actions ≡ err e
  unfolding build next
  build-refused c fuel uuid now actions a ran refused = ground (arith, ran, refused)

  -- When the handlers have made an activity, at an instant within the bounds of the calendar and with an
  -- interval within them, `build` ends, with a fuel of one round more than a second before now: it
  -- returns that activity where its schedule has a start date, a positive interval and a known unit,
  -- and otherwise fails.
  pub build_decides :
      (c : Calendar) (uuid : String) (now : Time)
      (actions : List (Activity V → Result (Activity V))) (a : Activity V)
      → run_actions actions (new_activity uuid now) ≡ ok a
      → now ≤ c.horizon
      → pos_part a.schedule.every * 7 ≤ c.max_step
      → let result = build c (suc (now - second)) uuid now actions in
        (IsRecurring a.schedule × (result ≡ ok (some a)))
        ⊎ (¬ IsRecurring a.schedule × ((e : Err) × (result ≡ err e)))
  build_decides c uuid now actions a ran h fits = elim (Result-cases (validate a.schedule)) [
    | inl (_, e) ↦
        let recurring = validate-IsRecurring a.schedule e in
        inl (
          recurring,
          build-scheduled c uuid now actions a ran (IsRecurring-IsValid c a.schedule recurring fits)
              h,
        )
    | inr (x, e) ↦ inr (
      λ recurring. IsRecurring-validate a.schedule recurring e,
      (x, build-refused c (suc (now - second)) uuid now actions a ran e),
    )
  ]
