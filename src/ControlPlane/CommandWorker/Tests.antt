-- ===== src/ControlPlane/CommandWorker/Tests.antt =====
-- A tick over three pending commands, and the theorems at that tick.
use zensor_server.Prelude.{
  ℕ, ◌≡◌, refl, true, List, [], ◌∷◌, Time, ok, err, sentinel, device_not_found,
}
use zensor_server.SharedKernel.Command.{Command, new_command}
use zensor_server.ControlPlane.CommandWorker.{CommandRepository, World, reconciliation}
use zensor_server.ControlPlane.CommandWorker.Release.{
  due, reversed_onto, reconciliation_releases_all,
}

abbrev at_time : Time → Command
at_time t = record (new_command "c" 1) { dispatch_after = t }

abbrev pending_commands : List Command
pending_commands = at_time 3 ∷ at_time 9 ∷ at_time 5 ∷ []

-- The store counts the updates.
abbrev counting : CommandRepository ℕ
counting = record {
  find_all_pending = λ s. ok pending_commands;
  get_by_id = λ id s. err (sentinel device_not_found);
  update = λ x s. (ok tt, Prim.Native.Nat.suc s);
}

abbrev idle : World ℕ
idle = record { store = 0; released = [] }

two_are_due :
    due 5 pending_commands
    ≡ record (at_time 3) { ready = true } ∷ record (at_time 5) { ready = true } ∷ []
two_are_due = refl

reconciliation_releases_all_example :
    (reconciliation counting 5 idle).released ≡ reversed_onto (due 5 pending_commands) []
reconciliation_releases_all_example =
    reconciliation_releases_all counting 5 pending_commands idle refl (λ x s. refl)
