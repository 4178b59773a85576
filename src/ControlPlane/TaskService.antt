-- ===== src/ControlPlane/TaskService.antt =====
-- internal/control_plane/usecases/task_service.go: the creation of a task, with its test against the
-- pending commands of the device. A task is a value of `T`, of which the service reads the device
-- and the commands; the listings pass their calls on.
pub mod Conflicts
mod Tests
use zensor_server.Prelude.{
  String, Bool, List, [], ◌∷◌, contains_func, if◌then◌else◌, Result, ok, err, wrap, wrap_error,
  sentinel, Action, command_overlap,
}
use zensor_server.SharedKernel.Command.{Command, overlaps_with}

-- The calls of the repositories of tasks and of commands, and the fields of a task.
pub record TaskPorts (T S : Type 0) : Type 0 where
  pub device_id : T → String
  pub commands : T → List Command
  pub create : T → Action S (Unit {0})
  pub find_pending_by_device : String → S → Result (List Command)

-- The loop of `validateCommandOverlaps`.
unfoldable pub check_overlaps : List Command → List Command → Result (Unit {0})
check_overlaps pending [] = ok tt
check_overlaps pending (cmd ∷ cmds) =
    let rest = check_overlaps pending cmds in
    if contains_func (overlaps_with cmd) pending then err (sentinel command_overlap) else rest

module _ {T S : Type 0} (p : TaskPorts T S) where
  unfoldable pub validate_command_overlaps : T → S → Result (Unit {0})
  validate_command_overlaps task s = elim (p.find_pending_by_device (p.device_id task) s) [
    | err e ↦ err (wrap "finding pending commands" e)
    | ok pending ↦ check_overlaps pending (p.commands task)
  ]

  unfoldable pub create : T → Action S (Unit {0})
  create task s = elim (validate_command_overlaps task s) [
    | err e ↦ (err e, s)
    | ok _ ↦ let (result, s') = p.create task s in (wrap_error "creating task" result, s')
  ]
