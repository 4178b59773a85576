-- ===== src/Maintenance/Execution/Tests.antt =====
-- Runs of `Execution`, and its theorems at concrete executions.
use zensor_server.Prelude.{
  String, ℕ, ◌+◌, ◌*◌, ◌≡◌, refl, [], ◌∷◌, pos, int_eq, string_eq, day, Dict, ok, arith,
}
use zensor_server.Maintenance.Execution.{
  Execution, new_execution, is_completed, calculate_overdue_days, build, with_activity_id,
  with_scheduled_date,
}
use zensor_server.Maintenance.Execution.Laws.{IsDistinct}

abbrev filter_change : Execution ℕ
filter_change = record (new_execution "e1" 5) {
  activity_id = "a1";
  scheduled_date = 2 * day;
  field_values = ("litres", 3) ∷ ("filter", 1) ∷ [];
  notification_days_sent = pos 3 ∷ pos 1 ∷ [];
}

filter_change-IsDistinct : IsDistinct filter_change
filter_change-IsDistinct x = ground arith

abbrev used : Dict String ℕ
used = ("litres", 4) ∷ []

three_days_overdue : calculate_overdue_days filter_change (5 * day + 1) ≡ 3
unfolding calculate_overdue_days is_completed
three_days_overdue = refl

abbrev planned : Execution ℕ
planned = record (new_execution "e2" 5) { activity_id = "a1"; scheduled_date = day }

planned_builds : build "e2" 5 (with_activity_id "a1" ∷ with_scheduled_date day ∷ []) ≡ ok planned
unfolding build
planned_builds = refl
