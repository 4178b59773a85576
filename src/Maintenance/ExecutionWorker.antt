-- ===== src/Maintenance/ExecutionWorker.antt =====
-- internal/maintenance/usecases/execution_worker.go: the tick that creates the next executions of
-- each active activity, and the tick that announces due and overdue executions.
pub mod Ticks
pub mod Scheduling
pub mod Kept
pub mod Completeness
pub mod Termination
mod Memory
mod Tests
use zensor_server.Prelude.{
  ℕ, zero, suc, String, Bool, true, false, List, [], ◌∷◌, ◌++◌, ℤ, pos, Option, none, some, Time,
  ltb_ℤ, if◌then◌else◌, whole_days, Dict, Result, ok, err, Err, is_error, wrap, execution_not_found,
  run_actions,
}
use zensor_server.Maintenance.Calendar.{Calendar}
use zensor_server.Maintenance.Schedule.{next}
use zensor_server.Maintenance.Execution.{
  Execution, has_notification_day_sent, mark_notification_day_sent, calculate_overdue_days,
  with_activity_id, with_scheduled_date, with_field_values, build,
}
use zensor_server.Maintenance.Activity.{Activity, default_values}
use zensor_server.Maintenance.Ports.{ExecutionRepository, ActivityRepository, TenantPort, Pending}
use zensor_server.Maintenance.ExecutionService.{create_execution}

-- The messages handed to the broker on the topic `maintenance_executions`.
pub data Event : Type 0 where
  execution_created : String → Time → Event
  execution_creation_failed : String → Err → Event
  execution_ready_for_notification : String → ℤ → Event
  execution_overdue : String → ℕ → Event

-- What a tick changes: the store, and the messages handed to the broker, the last one in front.
-- An error of `Publish` is only logged.
pub record World (S : Type 0) : Type 0 where
  pub store : S
  pub published : List Event

abbrev pub publish : {S : Type 0} → Event → World S → World S
publish event w = record w { published = event ∷ w.published }

-- What the worker is built from; `generate_uuid` is `utils.GenerateUUID`, made a function of the
-- store.
pub record Worker (V S : Type 0) : Type 0 where
  pub calendar : Calendar
  pub executions : ExecutionRepository V S
  pub activities : ActivityRepository V S
  pub tenants : TenantPort S
  pub generate_uuid : S → String

module _ {V S : Type 0} (k : Worker V S) where
  -- The builder call of `createExecution`.
  unfoldable pub build_at : Time → Activity V → Time → S → Result (Execution V)
  build_at now a date s = build (k.generate_uuid s) now (
      with_activity_id a.id
      ∷ with_scheduled_date date
      ∷ with_field_values (default_values a.fields [])
      ∷ [])

  -- `createExecution`
  unfoldable pub create_at : Time → Activity V → Time → S → Result (Unit {0}) × S
  create_at now a date s = elim (build_at now a date s) [
    | ok x ↦ create_execution k.executions k.activities x s
    | err e ↦ (err (wrap "building execution" e), s)
  ]

  -- The outcome of `createExecution`, announced.
  abbrev announce : Activity V → Time → Result (Unit {0}) × S → World S → World S
  announce a date (ok _, s) w = publish (execution_created a.id date) (record w { store = s })
  announce a date (err e, s) w =
      publish (execution_creation_failed a.id (wrap "creating execution" e))
        (record w { store = s })

  -- One round of the loop of `processActivity`, once the date is known.
  unfoldable pub process_date : Time → Activity V → Time → World S → World S
  process_date now a date w =
      elim (k.executions.find_by_activity_and_scheduled_date a.id date w.store) [
        | ok _ ↦ w
        | err e ↦
            if is_error e execution_not_found
            then announce a date (create_at now a date w.store) w
            else publish (execution_creation_failed a.id (wrap "checking execution existence" e)) w
      ]

  -- The loop of `processActivity` with the rounds left and the last date. `none`: `Next` did not end.
  unfoldable pub process_dates : ℕ → Time → Activity V → Time → World S → Option (World S)
  process_dates zero now a last w = some w
  process_dates (suc rounds) now a last w = elim (next k.calendar (suc last) a.schedule last) [
    | err e ↦ some (publish (execution_creation_failed a.id (wrap "computing next execution" e)) w)
    | ok none ↦ none
    | ok (some date) ↦ process_dates rounds now a date (process_date now a date w)
  ]

  abbrev pub next_executions_count : ℕ
  next_executions_count = 3

  unfoldable pub process_activity : Time → Activity V → World S → Option (World S)
  process_activity now a w = elim (k.tenants.get_tenant a.tenant_id w.store) [
    | err e ↦ some (publish (execution_creation_failed a.id (wrap "getting tenant" e)) w)
    | ok _ ↦
        process_dates next_executions_count now a now
          (record w { store = k.tenants.get_or_create_configuration a.tenant_id w.store })
  ]

  unfoldable pub process_activities : Time → List (Activity V) → World S → Option (World S)
  process_activities now [] w = some w
  process_activities now (a ∷ rest) w = elim (process_activity now a w) [
    | none ↦ none
    | some w' ↦ process_activities now rest w'
  ]

  -- `runScheduleExecutions`
  unfoldable pub schedule_executions : Time → World S → Option (World S)
  schedule_executions now w = elim (k.activities.find_all_active w.store) [
    | err _ ↦ some w
    | ok found ↦ process_activities now found w
  ]
