-- ===== src/ControlPlane/CommandRepository.antt =====
-- internal/control_plane/persistence/command_repository.go and the row that it stores,
-- internal/control_plane/persistence/internal/command.go.
pub mod Updates
mod Tests
use zensor_server.Prelude.{
  ℕ, suc, ◌+◌, String, Bool, ℤ, pos, negsuc, Option, none, some, or_else, leb, Time, if◌then◌else◌,
  Result, ok, err, wrap, wrap_error, Action,
}
use zensor_server.Infra.Orm.{Orm}
use zensor_server.SharedKernel.Device.{no_device}
use zensor_server.SharedKernel.Command.{
  Command, no_task, CommandStatus, pending, queued, sent, ack, failed, unset, other,
}

-- The entity `Command`; the database's default for an empty status is left to the ORM.
pub record Row : Type 0 where
  pub id : String
  pub version : ℕ
  pub device_name : String
  pub device_id : String
  pub task_id : String
  pub payload_index : ℤ
  pub payload_value : ℤ
  pub dispatch_after : Time
  pub port : ℕ
  pub priority : String
  pub created_at : Time
  pub ready : Bool
  pub is_sent : Bool
  pub sent_at : Time
  pub status : CommandStatus
  pub error_message : Option String
  pub queued_at : Option Time
  pub acked_at : Option Time
  pub failed_at : Option Time

abbrev pub to_uint8 : ℤ → ℕ
to_uint8 (negsuc n) = 0
to_uint8 (pos n) = if leb n 255 then n else 255

unfoldable pub to_domain : Row → Command
to_domain c = record {
  id = c.id;
  version = c.version;
  device = record no_device { id = c.device_id; name = c.device_name };
  task = record no_task { id = c.task_id };
  port = c.port;
  priority = c.priority;
  payload = record { index = to_uint8 c.payload_index; value = to_uint8 c.payload_value };
  dispatch_after = c.dispatch_after;
  created_at = c.created_at;
  ready = c.ready;
  is_sent = c.is_sent;
  sent_at = c.sent_at;
  status = c.status;
  error_message = c.error_message;
  queued_at = c.queued_at;
  acked_at = c.acked_at;
  failed_at = c.failed_at;
}

unfoldable pub from_command : Command → Row
from_command cmd = record {
  id = cmd.id;
  version = cmd.version;
  device_name = cmd.device.name;
  device_id = cmd.device.id;
  task_id = cmd.task.id;
  payload_index = pos cmd.payload.index;
  payload_value = pos cmd.payload.value;
  dispatch_after = cmd.dispatch_after;
  port = cmd.port;
  priority = cmd.priority;
  created_at = cmd.created_at;
  ready = cmd.ready;
  is_sent = cmd.is_sent;
  sent_at = cmd.sent_at;
  status = cmd.status;
  error_message = cmd.error_message;
  queued_at = cmd.queued_at;
  acked_at = cmd.acked_at;
  failed_at = cmd.failed_at;
}

-- `if cmd.Status == ""`
abbrev pub status_or : CommandStatus → CommandStatus → CommandStatus
status_or unset old = old
status_or pending old = pending
status_or queued old = queued
status_or sent old = sent
status_or ack old = ack
status_or failed old = failed
status_or (other s) old = other s

-- The entity that `Update` saves over the existing one.
unfoldable pub merged : Row → Command → Row
merged existing cmd = record (from_command cmd) {
  created_at = existing.created_at;
  status = status_or cmd.status existing.status;
  queued_at = or_else cmd.queued_at existing.queued_at;
  acked_at = or_else cmd.acked_at existing.acked_at;
  failed_at = or_else cmd.failed_at existing.failed_at;
  version = existing.version + 1;
}

module _ {S : Type 0} (o : Orm Row S) where
  unfoldable pub create : Command → Action S (Unit {0})
  create cmd s =
      let (result, s') = o.create (from_command cmd) s in
      (wrap_error "creating command in database" result, s')

  unfoldable pub update : Command → Action S (Unit {0})
  update cmd s = elim (o.first cmd.id s) [
    | err e ↦ (err (wrap "command not found in database" e), s)
    | ok existing ↦
        let (result, s') = o.save (merged existing cmd) s in
        (wrap_error "updating command in database" result, s')
  ]

  unfoldable pub get_by_id : String → S → Result Command
  get_by_id id s = elim (o.first id s) [
    | err e ↦ err (wrap "database query" e)
    | ok row ↦ ok (to_domain row)
  ]
