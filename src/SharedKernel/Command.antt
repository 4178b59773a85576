-- ===== src/SharedKernel/Command.antt =====
-- internal/shared_kernel/domain/command.go. A command holds its device and its task; of the task, its list of
-- commands is left out, and of the scheduled task that it refers to the identifier is kept. A method that reads
-- `time.Now` takes the instant as `now`.
pub mod Overlap
mod Tests
use zensor_server.Prelude.{
  ℕ, ◌+◌, ◌*◌, String, Bool, true, false, not, ◌&&◌, Option, none, some, List, Time, second, before,
  ◌==◌, nat_eq, if◌then◌else◌, Result, ok, err, run_actions,
}
use zensor_server.SharedKernel.Device.{Device, no_device}

-- `CommandStatus` is a Go string: `unset` is the empty text and `other` any further one.
pub data CommandStatus : Type 0 where
  pending queued sent ack failed : CommandStatus
  unset : CommandStatus
  other : String → CommandStatus

pub record CommandPayload : Type 0 where
  pub index : ℕ
  pub value : ℕ

-- The task of a command.
pub record TaskHead : Type 0 where
  pub id : String
  pub version : ℕ
  pub device : Device
  pub scheduled_task_id : Option String
  pub created_at : Time

-- `Task{}`
abbrev pub no_task : TaskHead
no_task = record {
  id = "";
  version = 0;
  device = no_device;
  scheduled_task_id = none;
  created_at = 0;
}

pub record Command : Type 0 where
  pub id : String
  pub version : ℕ
  pub device : Device
  pub task : TaskHead
  pub port : ℕ
  pub priority : String
  pub payload : CommandPayload
  pub dispatch_after : Time
  pub created_at : Time
  pub ready : Bool
  pub is_sent : Bool
  pub sent_at : Time
  pub status : CommandStatus
  pub error_message : Option String
  pub queued_at : Option Time
  pub acked_at : Option Time
  pub failed_at : Option Time

abbrev pub overlap_buffer_time : ℕ
overlap_buffer_time = 30 * second

unfoldable pub is_completed : Command → Bool
is_completed c = elim c.status [ ack ↦ true | failed ↦ true | _ ↦ false ]

unfoldable pub is_failed : Command → Bool
is_failed c = elim c.status [ failed ↦ true | _ ↦ false ]

unfoldable pub is_successful : Command → Bool
is_successful c = elim c.status [ ack ↦ true | _ ↦ false ]

-- The `switch` of `UpdateStatus`, on a command whose status has been set.
abbrev pub record_time : Time → CommandStatus → Option String → Command → Command
record_time now queued message c = record c { queued_at = some now }
record_time now sent message c = record c { is_sent = true; sent_at = now }
record_time now ack message c = record c { acked_at = some now }
record_time now failed message c = record c { failed_at = some now; error_message = message }
record_time now pending message c = c
record_time now unset message c = c
record_time now (other s) message c = c

unfoldable pub update_status : Time → CommandStatus → Option String → Command → Command
update_status now status message c = record_time now status message (record c { status = status })

unfoldable pub overlaps_with : Command → Command → Bool
overlaps_with c o =
    if not (c.payload.index == o.payload.index)
    then false
    else before c.dispatch_after (o.dispatch_after + overlap_buffer_time)
      && before o.dispatch_after (c.dispatch_after + overlap_buffer_time)

-- The handlers of `commandBuilder`.
abbrev pub with_device : Device → Command → Result Command
with_device value c = ok (record c { device = value })

abbrev pub with_port : ℕ → Command → Result Command
with_port value c = ok (record c { port = value })

abbrev pub with_priority : String → Command → Result Command
with_priority value c = ok (record c { priority = value })

abbrev pub with_payload : CommandPayload → Command → Result Command
with_payload value c = ok (record c { payload = value })

abbrev pub with_dispatch_after : Time → Command → Result Command
with_dispatch_after value c = ok (record c { dispatch_after = value })

abbrev pub new_command : String → Time → Command
new_command uuid now = record {
  id = uuid;
  version = 1;
  device = no_device;
  task = no_task;
  port = 15;
  priority = "";
  payload = record { index = 0; value = 0 };
  dispatch_after = 0;
  created_at = now;
  ready = false;
  is_sent = false;
  sent_at = 0;
  status = pending;
  error_message = none;
  queued_at = none;
  acked_at = none;
  failed_at = none;
}

-- `Build`
unfoldable pub build : String → Time → List (Command → Result Command) → Result Command
build uuid now actions = run_actions actions (new_command uuid now)
