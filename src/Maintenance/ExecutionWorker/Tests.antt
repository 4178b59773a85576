-- ===== src/Maintenance/ExecutionWorker/Tests.antt =====
-- A scheduling tick over an empty list of executions, and the theorems at that tick.
use zensor_server.Prelude.{
  ℕ, zero, suc, ◌+◌, ◌*◌, ◌≤◌, ◌<◌, ◌≡◌, refl, List, [], ◌∷◌, some, mul_int, day, string_eq, ok,
  arith,
}
use zensor_server.Maintenance.Schedule.{advance}
use zensor_server.Maintenance.Schedule.Occurrences.{
  IsValid, IsFirstAfter, IsFirstAfter-unique, occurrence,
}
use zensor_server.Maintenance.ExecutionWorker.{World, process_activity, schedule_executions}
use zensor_server.Maintenance.ExecutionWorker.Memory.{
  Rows, pump, worker, rows_at, schedule_laws, row_laws, find_row-answers,
}
use zensor_server.Maintenance.ExecutionWorker.Kept.{Keeps}
use zensor_server.Maintenance.ExecutionWorker.Scheduling.{Added}
use zensor_server.Maintenance.ExecutionWorker.Termination.{IsPlannable, schedule_executions_total}
use zensor_server.Maintenance.Activity.{Activity}
use zensor_server.Prelude.{All, subst, sym}
use zensor_server.Maintenance.ExecutionWorker.Completeness.{IsHealthy, process_activity-Filled}

abbrev empty_world : World Rows
empty_world = record { store = []; published = [] }

worker-IsHealthy : IsHealthy worker pump
worker-IsHealthy = record {
  tenant_known = λ s. refl;
  activity_known = λ s. refl;
  lookup_answers = λ d s h. find_row-answers _ s h;
  create_works = λ x s. refl;
}

pump-IsValid : IsValid worker.calendar pump.schedule
pump-IsValid = record {
  started = omega arith;
  interval = 2;
  interval_lem = refl;
  interval_pos = omega arith;
  interval_fits = omega arith;
  unit_known = refl;
}

second_date-IsFirstAfter : IsFirstAfter worker.calendar pump.schedule (18 * day) 2
unfolding advance mul_int
second_date-IsFirstAfter = record { later = omega arith; least = earlier }
  where
    earlier : (i : ℕ) → i < 2 → occurrence worker.calendar pump.schedule i ≤ 18 * day
    earlier zero h = omega arith
    earlier (suc zero) h = omega arith
    earlier (suc (suc i)) h = absurd (omega arith)

dates_fit :
    (i : ℕ) → i < 3 → occurrence worker.calendar pump.schedule (2 + i) ≤ worker.calendar.horizon
unfolding advance mul_int
dates_fit zero h = omega arith
dates_fit (suc zero) h = omega arith
dates_fit (suc (suc zero)) h = omega arith
dates_fit (suc (suc (suc i))) h = absurd (omega arith)

process_activity-Filled_example :
    (w' : World Rows) × (process_activity worker (18 * day) pump empty_world ≡ some w')
    × ((i : ℕ)
        → i < 3
        → 0 < rows_at "a1" (occurrence worker.calendar pump.schedule (2 + i)) w'.store)
process_activity-Filled_example =
    process_activity-Filled worker schedule_laws pump worker-IsHealthy (λ e. cc) pump-IsValid 2
      (18 * day) empty_world second_date-IsFirstAfter (omega arith) dates_fit

pump-IsPlannable : IsPlannable worker (18 * day) pump
pump-IsPlannable = record {
  valid = pump-IsValid;
  dates_fit = λ j i first lt.
      subst (λ x. occurrence worker.calendar pump.schedule (x + i) ≤ worker.calendar.horizon)
        (sym (
          IsFirstAfter-unique worker.calendar pump.schedule pump-IsValid (18 * day) j 2 first
            second_date-IsFirstAfter))
        (dates_fit i lt);
}

found-IsPlannable :
    (found : List (Activity ℕ))
    → worker.activities.find_all_active [] ≡ ok found
    → All (IsPlannable worker (18 * day)) found
found-IsPlannable found h =
    let same : pump ∷ [] ≡ found = cc in
    subst (λ xs. All (IsPlannable worker (18 * day)) xs) same (pump-IsPlannable, tt)

schedule_executions_total_example :
    (w' : World Rows) × (schedule_executions worker (18 * day) empty_world ≡ some w')
    × Added worker schedule_laws [] w'.store
    × Keeps worker row_laws [] w'.store
schedule_executions_total_example =
    schedule_executions_total worker schedule_laws row_laws (18 * day) empty_world (omega arith)
      found-IsPlannable
