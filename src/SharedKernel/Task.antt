-- ===== src/SharedKernel/Task.antt =====
-- internal/shared_kernel/domain/task.go and command_template.go. Of the scheduled task the identifier is kept. `WaitFor` is a number of nanoseconds; waiting times before now are left out.
use zensor_server.Prelude.{
  ℕ, ◌+◌, String, false, Option, none, some, List, [], ◌∷◌, Time, ◌==◌, string_eq, if◌then◌else◌,
  Result, ok, err, sentinel, task_device_required, task_commands_required, run_actions,
}
use zensor_server.SharedKernel.Device.{Device, no_device}
use zensor_server.SharedKernel.Command.{Command, CommandPayload, TaskHead, unset}

pub record CommandTemplate : Type 0 where
  pub device : Device
  pub port : ℕ
  pub priority : String
  pub payload : CommandPayload
  pub wait_for : ℕ

-- `ToCommand`, with the generated identifier.
unfoldable pub to_command : String → TaskHead → Time → CommandTemplate → Command
to_command uuid task base_time ct = record {
  id = uuid;
  version = 1;
  device = ct.device;
  task = task;
  port = ct.port;
  priority = ct.priority;
  payload = ct.payload;
  dispatch_after = base_time + ct.wait_for;
  created_at = 0;
  ready = false;
  is_sent = false;
  sent_at = 0;
  status = unset;
  error_message = none;
  queued_at = none;
  acked_at = none;
  failed_at = none;
}

pub record Task : Type 0 where
  pub id : String
  pub version : ℕ
  pub device : Device
  pub commands : List Command
  pub scheduled_task_id : Option String
  pub created_at : Time

-- The task as its commands refer to it.
abbrev pub head : Task → TaskHead
head t = record {
  id = t.id;
  version = t.version;
  device = t.device;
  scheduled_task_id = t.scheduled_task_id;
  created_at = t.created_at;
}

-- The handlers of `taskBuilder`.
abbrev pub with_device : Device → Task → Result Task
with_device value t = ok (record t { device = value })

abbrev pub with_commands : List Command → Task → Result Task
with_commands commands t = ok (record t { commands = commands })

abbrev pub with_scheduled_task : String → Task → Result Task
with_scheduled_task id t = ok (record t { scheduled_task_id = some id })

abbrev pub check_commands : Task → List Command → Result Task
check_commands t [] = err (sentinel task_commands_required)
check_commands t (_ ∷ _) = ok t

abbrev pub check_task : Result Task → Result Task
check_task (err e) = err e
check_task (ok t) =
    if t.device.id == "" then err (sentinel task_device_required) else check_commands t t.commands

-- `Build`, with the generated identifier.
unfoldable pub build : String → Time → List (Task → Result Task) → Result Task
build uuid now actions = check_task (
    run_actions actions (record {
      id = uuid;
      version = 1;
      device = no_device;
      commands = [];
      scheduled_task_id = none;
      created_at = now;
    }))
