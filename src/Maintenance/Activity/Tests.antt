-- ===== src/Maintenance/Activity/Tests.antt =====
-- Runs of `Activity`, and its theorems at a concrete activity.
use zensor_server.Prelude.{
  ℕ, suc, ◌-◌, ◌*◌, ◌≡◌, refl, some, List, [], ◌∷◌, pos, int_eq, true, day, second, Result, ok, err,
  Err, ◌⊎◌, run_actions, arith,
}
use zensor_server.Maintenance.Calendar.{plain_calendar}
use zensor_server.Maintenance.Schedule.{Schedule, week_unit}
use zensor_server.Maintenance.Activity.{
  Activity, is_ready_for_notification, new_activity, build, with_tenant_id, with_name,
  with_schedule, with_notification_days_before,
}
use zensor_server.Maintenance.Activity.Laws.{IsRecurring, build_decides}

abbrev fortnightly : Schedule
fortnightly = record { start_date = 3 * day; every = pos 2; unit = week_unit }

abbrev handlers : List (Activity ℕ → Result (Activity ℕ))
handlers =
    with_tenant_id "t1"
    ∷ with_name "Water pump"
    ∷ with_schedule fortnightly
    ∷ with_notification_days_before (pos 7 ∷ pos 1 ∷ [])
    ∷ []

abbrev pump : Activity ℕ
pump = record (new_activity "a1" (5 * day)) {
  tenant_id = "t1";
  name = "Water pump";
  schedule = fortnightly;
  notification_days_before = pos 7 ∷ pos 1 ∷ [];
}

pump_is_announced_a_week_before :
    is_ready_for_notification pump (31 * day) (24 * day) ≡ (true, pos 7)
unfolding is_ready_for_notification
pump_is_announced_a_week_before = refl

build_decides_example :
    (IsRecurring fortnightly
      × (build plain_calendar (suc (5 * day - second)) "a1" (5 * day) handlers ≡ ok (some pump)))
    ⊎ (¬ IsRecurring fortnightly
        × ((e : Err) × (build plain_calendar (suc (5 * day - second)) "a1" (5 * day) handlers
              ≡ err e)))
unfolding run_actions
build_decides_example =
    build_decides plain_calendar "a1" (5 * day) handlers pump refl (omega arith) (omega arith)
