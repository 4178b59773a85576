-- ===== src/ControlPlane/ScheduledTaskWorker.antt =====
-- internal/control_plane/usecases/scheduled_task_worker.go over the ports that it calls, which share the store `S`.
-- `load_zone` is `time.LoadLocation`, `utc` is `time.UTC`, and `parse_cron` is the third-party parser with the `Next` of
-- what it parsed. The loop that waits for the ticker is left out; a panic of `CalculateNextExecution` ends the
-- program and is the outcome `panics`.
pub mod Once
mod Tests
use zensor_server.Prelude.{
  ℕ, suc, String, Bool, true, false, not, ◌||◌, Option, none, some, List, [], ◌∷◌, map, Time,
  is_zero, before, nat_eq, ◌==◌, string_eq, if◌then◌else◌, Result, ok, err, Outcome, returns,
  panics, sentinel, wrap, Action, cron_schedule_required, no_valid_scheduling,
}
use zensor_server.SharedKernel.Command.{Command, no_task}
use zensor_server.SharedKernel.Device.{Device}
use zensor_server.SharedKernel.Task as Task
use zensor_server.SharedKernel.Task.{
  Task, CommandTemplate, head, to_command, with_device, with_commands, with_scheduled_task,
}
use zensor_server.SharedKernel.ScheduledTask.{
  Zone, SchedulingType, cron, interval, unset, other, ScheduledTask, calculate_next_execution,
}

pub record Ports (S : Type 0) : Type 0 where
  pub find_all_active : S → Result (List ScheduledTask)
  pub update : ScheduledTask → Action S (Unit {0})
  pub get_device : String → S → Result Device
  pub create_task : Task → Action S (Unit {0})
  -- The time zone of a tenant's configuration; "UTC" where it cannot be had.
  pub timezone : String → S → String × S
  -- `broker.Publish`, whose error is only logged.
  pub publish : ScheduledTask → S → S

abbrev pub or_utc : Zone → Result Zone → Zone
or_utc utc (ok zone) = zone
or_utc utc (err e) = utc

-- The last execution, or the creation where there was none.
abbrev pub last_executed : ScheduledTask → Option Time → Time
last_executed st none = st.created_at
last_executed st (some at) = if is_zero at then st.created_at else at

-- `nextRun.Before(now) || nextRun.Equal(now)`
abbrev pub is_due : Time → Outcome Time → Outcome Bool
is_due now (returns (ok next)) = returns (ok (before next now || next == now))
is_due now (returns (err e)) = returns (err e)
is_due now panics = panics

abbrev pub interval_error : Outcome Time → Outcome Time
interval_error (returns (ok next)) = returns (ok next)
interval_error (returns (err e)) = returns (err (wrap "calculating next interval execution" e))
interval_error panics = panics

abbrev pub cron_next : Zone → Time → Result (Zone → Time → Time) → Outcome Time
cron_next zone last (ok next) = returns (ok (next zone last))
cron_next zone last (err e) = returns (err (wrap "parsing cron schedule" e))

-- The commands of the templates, whose identifiers are drawn in order.
unfoldable pub to_commands : (ℕ → String) → ℕ → Device → Time → List CommandTemplate → List Command
to_commands uuid i device now [] = []
to_commands uuid i device now (template ∷ templates) =
    to_command (uuid i) no_task now (record template { device = device })
    ∷ to_commands uuid (suc i) device now templates

-- The loop over `task.Commands`, which refer to the task from then on.
abbrev pub link_commands : Task → Task
link_commands task = record task {
  commands = map (λ (cmd : Command). record cmd { task = head task }) task.commands;
}

module _ {S : Type 0} (load_zone : String → Result Zone) (utc : Zone)
    (parse_cron : String → Result (Zone → Time → Time)) (p : Ports S) where
  -- The `switch` of `shouldExecuteSchedule`.
  abbrev pub next_run : ScheduledTask → SchedulingType → Result Zone → Time → Time → Outcome Bool
  next_run st interval zone last now =
      is_due now (interval_error (calculate_next_execution zone st))
  next_run st cron zone last now =
      if st.schedule == ""
      then returns (err (sentinel cron_schedule_required))
      else is_due now (cron_next (or_utc utc zone) last (parse_cron st.schedule))
  next_run st unset zone last now =
      if st.schedule == ""
      then returns (err (sentinel no_valid_scheduling))
      else is_due now (cron_next (or_utc utc zone) last (parse_cron st.schedule))
  next_run st (other _) zone last now =
      if st.schedule == ""
      then returns (err (sentinel no_valid_scheduling))
      else is_due now (cron_next (or_utc utc zone) last (parse_cron st.schedule))

  -- `shouldExecuteSchedule`
  unfoldable pub should_execute_schedule : ScheduledTask → Time → Time → S → Outcome Bool × S
  should_execute_schedule st last now s =
      let (name, s') = p.timezone st.tenant_id s in
      (next_run st st.scheduling.type (load_zone name) last now, s')

  -- From the call of the task service on.
  abbrev pub after_create : Time → ScheduledTask → Result (Unit {0}) × S → Result (Unit {0}) × S
  after_create now st (err e, s) = (err e, s)
  after_create now st (ok _, s) =
      p.update (record st { last_executed_at = some now; updated_at = now }) (p.publish st s)

  abbrev pub create_built : Time → ScheduledTask → Result Task → Action S (Unit {0})
  create_built now st (err e) s = (err e, s)
  create_built now st (ok task) s = after_create now st (p.create_task (link_commands task) s)

  abbrev pub create_for : (ℕ → String) → Time → ScheduledTask → Result Device → Action S (Unit {0})
  create_for uuid now st (err e) s = (err e, s)
  create_for uuid now st (ok device) s =
      create_built now st
        (Task.build (uuid 0) now (
          with_device device
          ∷ with_commands (to_commands uuid 1 device now st.command_templates)
          ∷ with_scheduled_task st.id
          ∷ []))
        s

  -- `createTaskFromScheduledTask`; its errors are only logged.
  unfoldable pub create_task_from_scheduled_task :
      (ℕ → String) → Time → ScheduledTask → Action S (Unit {0})
  create_task_from_scheduled_task uuid now st s =
      create_for uuid now st (p.get_device st.device_id s) s

  abbrev pub execute_if :
      (ℕ → String) → Time → ScheduledTask → Outcome Bool × S → Outcome (Unit {0}) × S
  execute_if uuid now st (panics, s) = (panics, s)
  execute_if uuid now st (returns (err e), s) = (returns (ok tt), s)
  execute_if uuid now st (returns (ok false), s) = (returns (ok tt), s)
  execute_if uuid now st (returns (ok true), s) =
      (returns (ok tt), (create_task_from_scheduled_task uuid now st s).1)

  -- `evaluateAndMaybeCreateTask`
  unfoldable pub evaluate_and_maybe_create_task :
      (ℕ → String) → Time → ScheduledTask → S → Outcome (Unit {0}) × S
  evaluate_and_maybe_create_task uuid now st s =
      if not st.is_active
      then (returns (ok tt), s)
      else execute_if uuid now st
          (should_execute_schedule st (last_executed st st.last_executed_at) now s)

  -- The loop of `evaluateSchedules`, with the identifiers that each round draws.
  unfoldable pub evaluate_all :
      (ℕ → ℕ → String) → ℕ → Time → List ScheduledTask → S → Outcome (Unit {0}) × S
  evaluate_all uuid i now [] s = (returns (ok tt), s)
  evaluate_all uuid i now (st ∷ sts) s =
      let (outcome, s') = evaluate_and_maybe_create_task (uuid i) now st s in
      elim outcome [ panics ↦ (panics, s') | returns _ ↦ evaluate_all uuid (suc i) now sts s' ]

  abbrev pub evaluate_found :
      (ℕ → ℕ → String) → Time → Result (List ScheduledTask) → S → Outcome (Unit {0}) × S
  evaluate_found uuid now (err e) s = (returns (ok tt), s)
  evaluate_found uuid now (ok sts) s = evaluate_all uuid 0 now sts s

  unfoldable pub evaluate_schedules : (ℕ → ℕ → String) → Time → S → Outcome (Unit {0}) × S
  evaluate_schedules uuid now s = evaluate_found uuid now (p.find_all_active s) s
