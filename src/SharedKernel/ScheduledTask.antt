-- ===== src/SharedKernel/ScheduledTask.antt =====
-- internal/shared_kernel/domain/scheduled_task.go. Of the tenant and the device the identifiers are kept. `Zone` is a
-- `*time.Location` with what Go computes in it, and is a parameter: the calendar day of an instant, the instant of a
-- day at an hour and a minute (`time.Date`), and `AddDate(0, 0, n)`.
pub mod Building
use zensor_server.Prelude.{
  ℕ, ◌+◌, ℤ, pos, leb_ℤ, String, Bool, true, false, ◌&&◌, Option, none, some, is_some, List, [],
  ◌∷◌, Time, before, nat_eq, ◌==◌, string_eq, if◌then◌else◌, Result, ok, err, Outcome, returns,
  panics, not, sentinel, wrap, wrap_error, run_actions, parse_execution_time, interval_only,
  tenant_required, device_required, command_templates_required, schedule_required,
  initial_day_required, day_interval_required, execution_time_required, initial_day_in_past,
}
use zensor_server.SharedKernel.Task.{CommandTemplate}

pub record Zone : Type 0 where
  pub day_of : Time → ℕ
  pub instant : ℕ → ℕ → ℕ → Time
  pub add_days : Time → ℤ → Time

-- `SchedulingType` is a Go string: `unset` is the empty text and `other` any further one.
pub data SchedulingType : Type 0 where
  cron interval unset : SchedulingType
  other : String → SchedulingType

abbrev pub is_unset : SchedulingType → Bool
is_unset cron = false
is_unset interval = false
is_unset unset = true
is_unset (other _) = false

-- The initial day is an instant with the zone that it came in, in which its date is read.
pub record InitialDay : Type 0 where
  pub at : Time
  pub zone : Zone

pub record SchedulingConfiguration : Type 0 where
  pub type : SchedulingType
  pub initial_day : Option InitialDay
  pub day_interval : Option ℤ
  pub execution_time : Option String

pub record ScheduledTask : Type 0 where
  pub id : String
  pub version : ℕ
  pub tenant_id : String
  pub device_id : String
  pub command_templates : List CommandTemplate
  pub schedule : String
  pub scheduling : SchedulingConfiguration
  pub is_active : Bool
  pub created_at : Time
  pub updated_at : Time
  pub last_executed_at : Option Time
  pub deleted_at : Option Time

unfoldable pub is_deleted : ScheduledTask → Bool
is_deleted st = is_some st.deleted_at

unfoldable pub soft_delete : Time → ScheduledTask → ScheduledTask
soft_delete now st = record st { deleted_at = some now; is_active = false; updated_at = now }

-- `calculateNextIntervalExecution` for the first execution, whose reference is the initial day itself.
unfoldable pub first_execution : InitialDay → ℤ → ℕ → ℕ → Time → Zone → Time
first_execution initial day_interval hour minute reference zone =
    let candidate = zone.instant (initial.zone.day_of initial.at) hour minute in
    if before candidate reference then zone.add_days candidate day_interval else candidate

-- The same for a later execution: the midnight of the last one's day, and the day of the instant that lies the
-- interval further on.
unfoldable pub next_execution : ℤ → ℕ → ℕ → Time → Zone → Time
next_execution day_interval hour minute reference zone =
    let last_executed_date = zone.instant (zone.day_of reference) 0 0 in
    zone.instant (zone.day_of (zone.add_days last_executed_date day_interval)) hour minute

abbrev pub calculate_at : Option Time → Zone → ℕ × ℕ → InitialDay → ℤ → Time
calculate_at none zone (hour, minute) initial day_interval =
    first_execution initial day_interval hour minute initial.at zone
calculate_at (some last) zone (hour, minute) initial day_interval =
    next_execution day_interval hour minute last zone

-- The pointers to the initial day and the interval.
abbrev pub deref : (InitialDay → ℤ → Time) → Option InitialDay → Option ℤ → Outcome Time
deref calculate (some initial) (some day_interval) = returns (ok (calculate initial day_interval))
deref calculate none day_interval = panics
deref calculate (some initial) none = panics

abbrev pub calculate_parsed : ScheduledTask → Zone → Result (ℕ × ℕ) → Outcome Time
calculate_parsed st zone (err e) = returns (err (wrap "parsing execution time" e))
calculate_parsed st zone (ok day_time) =
    deref (calculate_at st.last_executed_at zone day_time) st.scheduling.initial_day
      st.scheduling.day_interval

abbrev pub calculate_in : ScheduledTask → String → Result Zone → Outcome Time
calculate_in st text (err e) = returns (err (wrap "loading timezone" e))
calculate_in st text (ok zone) = calculate_parsed st zone (parse_execution_time text)

abbrev pub calculate_interval : ScheduledTask → Result Zone → Option String → Outcome Time
calculate_interval st zone none = panics
calculate_interval st zone (some text) = calculate_in st text zone

-- `CalculateNextExecution`, with the outcome of `time.LoadLocation`.
unfoldable pub calculate_next_execution : Result Zone → ScheduledTask → Outcome Time
calculate_next_execution zone st = elim st.scheduling.type [
  | interval ↦ calculate_interval st zone st.scheduling.execution_time
  | _ ↦ returns (err (sentinel interval_only))
]

-- The handlers of `scheduledTaskBuilder`.
abbrev pub with_tenant : String → ScheduledTask → Result ScheduledTask
with_tenant value d = ok (record d { tenant_id = value })

abbrev pub with_device : String → ScheduledTask → Result ScheduledTask
with_device value d = ok (record d { device_id = value })

abbrev pub with_command_templates : List CommandTemplate → ScheduledTask → Result ScheduledTask
with_command_templates value d = ok (record d { command_templates = value })

abbrev pub with_schedule : String → ScheduledTask → Result ScheduledTask
with_schedule value d = ok (record d { schedule = value })

abbrev pub with_is_active : Bool → ScheduledTask → Result ScheduledTask
with_is_active value d = ok (record d { is_active = value })

abbrev pub with_last_executed_at : Option Time → ScheduledTask → Result ScheduledTask
with_last_executed_at value d = ok (record d { last_executed_at = value })

abbrev pub with_scheduling : SchedulingConfiguration → ScheduledTask → Result ScheduledTask
with_scheduling value d = ok (record d { scheduling = value })

-- The last test of `Build`.
abbrev pub check_future : Time → ScheduledTask → InitialDay → Result (ℕ × ℕ) → Result ScheduledTask
check_future now st initial (err e) = err (wrap "invalid execution_time format" e)
check_future now st initial (ok (hour, minute)) =
    if before (initial.zone.instant (initial.zone.day_of initial.at) hour minute) now
    then err (sentinel initial_day_in_past)
    else ok st

abbrev pub check_time : Time → ScheduledTask → InitialDay → Option String → Result ScheduledTask
check_time now st initial none = err (sentinel execution_time_required)
check_time now st initial (some text) =
    if text == ""
    then err (sentinel execution_time_required)
    else check_future now st initial (parse_execution_time text)

abbrev pub check_days : Time → ScheduledTask → InitialDay → Option ℤ → Result ScheduledTask
check_days now st initial none = err (sentinel day_interval_required)
check_days now st initial (some days) =
    if leb_ℤ days (pos 0)
    then err (sentinel day_interval_required)
    else check_time now st initial st.scheduling.execution_time

abbrev pub check_interval : Time → ScheduledTask → Option InitialDay → Result ScheduledTask
check_interval now st none = err (sentinel initial_day_required)
check_interval now st (some initial) = check_days now st initial st.scheduling.day_interval

abbrev pub check_scheduling : Time → ScheduledTask → SchedulingType → Result ScheduledTask
check_scheduling now st interval = check_interval now st st.scheduling.initial_day
check_scheduling now st cron = ok st
check_scheduling now st unset = ok st
check_scheduling now st (other _) = ok st

-- A schedule without a type is one of cron.
abbrev pub default_scheduling : ScheduledTask → ScheduledTask
default_scheduling st =
    if not (st.schedule == "") && is_unset st.scheduling.type
    then record st {
      scheduling = record {
        type = cron;
        initial_day = none;
        day_interval = none;
        execution_time = none;
      };
    }
    else st

abbrev pub check_schedule : Time → ScheduledTask → Result ScheduledTask
check_schedule now st =
    if (st.schedule == "") && is_unset st.scheduling.type
    then err (sentinel schedule_required)
    else (let st' = default_scheduling st in check_scheduling now st' st'.scheduling.type)

abbrev pub check_templates : Time → ScheduledTask → List CommandTemplate → Result ScheduledTask
check_templates now st [] = err (sentinel command_templates_required)
check_templates now st (_ ∷ _) = check_schedule now st

abbrev pub check : Time → Result ScheduledTask → Result ScheduledTask
check now (err e) = err e
check now (ok st) =
    if st.tenant_id == ""
    then err (sentinel tenant_required)
    else if st.device_id == ""
    then err (sentinel device_required)
    else check_templates now st st.command_templates

abbrev pub new_task : String → Time → ScheduledTask
new_task uuid now = record {
  id = uuid;
  version = 1;
  tenant_id = "";
  device_id = "";
  command_templates = [];
  schedule = "";
  scheduling = record {
    type = unset;
    initial_day = none;
    day_interval = none;
    execution_time = none;
  };
  is_active = true;
  created_at = now;
  updated_at = now;
  last_executed_at = none;
  deleted_at = none;
}

-- `Build`, with the generated identifier, and with the instant of the last test.
unfoldable pub build :
    String → Time → Time → List (ScheduledTask → Result ScheduledTask) → Result ScheduledTask
build uuid now later actions = check later (run_actions actions (new_task uuid now))
