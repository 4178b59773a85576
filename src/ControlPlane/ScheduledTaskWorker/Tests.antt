-- ===== src/ControlPlane/ScheduledTaskWorker/Tests.antt =====
-- A valve that is opened every second day at half past six, in UTC.
use zensor_server.Prelude.{
  ℕ, ◌+◌, ◌*◌, ◌/◌, ◌-◌, pos, pos_part, neg_part, ◌≡◌, refl, ◌≤◌, String, none, some, List, [], ◌∷◌,
  Time, ltb, if◌then◌else◌, Result, ok, err, foreign, returns, run_actions, parse_execution_time,
  parse_execution_time_bounds,
}
use zensor_server.SharedKernel.Device.{Device}
use zensor_server.SharedKernel.Task as Task
use zensor_server.SharedKernel.Task.{Task, CommandTemplate}
use zensor_server.SharedKernel.ScheduledTask.{
  Zone, interval, ScheduledTask, SchedulingConfiguration, with_tenant, with_device,
  with_command_templates, with_scheduling, build, new_task, calculate_next_execution,
  next_execution,
}
use zensor_server.ControlPlane.ScheduledTaskWorker.{
  Ports, evaluate_and_maybe_create_task, create_task_from_scheduled_task, should_execute_schedule,
  to_commands,
}
use zensor_server.ControlPlane.ScheduledTaskWorker.Once.{
  executed, interval_decides, built_task_never_panics,
}

-- A calendar in which an instant is a minute.
abbrev day : ℕ
day = 1440

abbrev utc : Zone
utc = record {
  day_of = λ t. t / day;
  instant = λ d h m. d * day + (h * 60 + m);
  add_days = λ t n. t + pos_part n * day - neg_part n * day;
}

abbrev load_zone : String → Result Zone
load_zone name = ok utc

abbrev no_cron : String → Result (Zone → Time → Time)
no_cron text = err (foreign "not a cron schedule")

abbrev valve : Device
valve = record {
  id = "d1";
  name = "valve-1";
  display_name = "";
  app_eui = "";
  dev_eui = "";
  app_key = "";
  tenant_id = some "t1";
  last_message_received_at = 0;
}

-- The store is the list of the created tasks.
abbrev ports : Ports (List Task)
ports = record {
  find_all_active = λ s. ok [];
  update = λ st s. (ok tt, s);
  get_device = λ id s. ok valve;
  create_task = λ task s. (ok tt, task ∷ s);
  timezone = λ tenant_id s. ("UTC", s);
  publish = λ st s. s;
}

abbrev opening : CommandTemplate
opening = record {
  device = valve;
  port = 15;
  priority = "NORMAL";
  payload = record { index = 1; value = 100 };
  wait_for = 0;
}

abbrev every_second_day : SchedulingConfiguration
every_second_day = record {
  type = interval;
  initial_day = some (record { at = 10 * day; zone = utc });
  day_interval = some (pos 2);
  execution_time = some "06:30";
}

abbrev handlers : List (ScheduledTask → Result ScheduledTask)
handlers =
    with_tenant "t1"
    ∷ with_device "d1"
    ∷ with_command_templates (opening ∷ [])
    ∷ with_scheduling every_second_day
    ∷ []

abbrev watering : ScheduledTask
watering = record (new_task "s1" (9 * day)) {
  tenant_id = "t1";
  device_id = "d1";
  command_templates = opening ∷ [];
  scheduling = every_second_day;
}

builds : build "s1" (9 * day) (9 * day) handlers ≡ ok watering
unfolding build run_actions parse_execution_time
builds = refl

parses : parse_execution_time "06:30" ≡ ok (6, 30)
unfolding parse_execution_time
parses = refl

parse_execution_time_bounds_example : (6 ≤ 23) × (30 ≤ 59)
parse_execution_time_bounds_example = parse_execution_time_bounds "06:30" parses

abbrev ids : ℕ → String
ids i = "id"

creates_one :
    (evaluate_and_maybe_create_task load_zone utc no_cron ports ids
      (13 * day)
      (executed load_zone utc no_cron ports (10 * day) watering)
      []).0
    ≡ returns (ok tt)
unfolding evaluate_and_maybe_create_task should_execute_schedule calculate_next_execution
    next_execution parse_execution_time create_task_from_scheduled_task Task.build run_actions
    to_commands
creates_one = refl

interval_decides_example :
    evaluate_and_maybe_create_task load_zone utc no_cron ports ids
      (13 * day)
      (executed load_zone utc no_cron ports (10 * day) watering)
      []
    ≡ (if ltb (13 * day) (utc.instant (utc.day_of (10 * day) + 2) 6 30)
        then (returns (ok tt), [])
        else (
          returns (ok tt),
          (create_task_from_scheduled_task load_zone utc no_cron ports ids
              (13 * day)
              (executed load_zone utc no_cron ports (10 * day) watering)
              []).1,
        ))
interval_decides_example =
    interval_decides load_zone utc no_cron ports watering ids (10 * day) (13 * day) utc
      (record { at = 10 * day; zone = utc }) 2 6 30 "06:30" [] refl refl refl refl refl parses refl
      refl

built_task_never_panics_example :
    (evaluate_and_maybe_create_task load_zone utc no_cron ports ids
      (13 * day)
      (record watering { last_executed_at = none })
      []).0
    ≡ returns (ok tt)
built_task_never_panics_example =
    built_task_never_panics load_zone utc no_cron ports "s1" (9 * day) (9 * day) handlers none ids
      (13 * day) [] builds
