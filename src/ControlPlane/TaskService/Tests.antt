-- ===== src/ControlPlane/TaskService/Tests.antt =====
-- A task that is created, and one that is refused.
use zensor_server.Prelude.{
  ℕ, suc, ◌*◌, ◌≡◌, refl, ◌↔◌, true, List, [], ◌∷◌, second, if◌then◌else◌, ok, err, is_ok, sentinel,
  command_overlap,
}
use zensor_server.SharedKernel.Command.{Command, new_command, overlaps_with}
use zensor_server.ControlPlane.TaskService.{
  TaskPorts, create, validate_command_overlaps, check_overlaps,
}
use zensor_server.ControlPlane.TaskService.Conflicts.{IsDisjoint, create_iff}

abbrev at_second : ℕ → Command
at_second t = record (new_command "c" 1) { dispatch_after = t * second }

-- A task is the list of its commands, and the store counts the tasks.
abbrev ports : TaskPorts (List Command) ℕ
ports = record {
  device_id = λ task. "d1";
  commands = λ task. task;
  create = λ task s. (ok tt, suc s);
  find_pending_by_device = λ id s. ok (at_second 100 ∷ []);
}

close_command_is_refused : create ports (at_second 129 ∷ []) 0 ≡ (err (sentinel command_overlap), 0)
unfolding create validate_command_overlaps check_overlaps overlaps_with
close_command_is_refused = refl

create_iff_example :
    ((is_ok (create ports (at_second 130 ∷ []) 0).0 ≡ true)
      ↔ IsDisjoint (at_second 100 ∷ []) (at_second 130 ∷ []))
    × ((create ports (at_second 130 ∷ []) 0).1
        ≡ (if is_ok (create ports (at_second 130 ∷ []) 0).0 then 1 else 0))
create_iff_example = create_iff ports (at_second 130 ∷ []) 0 (at_second 100 ∷ []) refl refl
