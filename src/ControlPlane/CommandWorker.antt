-- ===== src/ControlPlane/CommandWorker.antt =====
-- internal/control_plane/usecases/command_worker.go: the tick that releases due commands, and the two
-- messages that it handles. Messages of another type, and logging, are left out.
pub mod Release
mod Tests
use zensor_server.Prelude.{
  String, Bool, true, false, Option, List, [], ◌∷◌, Time, after, ◌==◌, string_eq, if◌then◌else◌,
  Result, ok, err, Action,
}
use zensor_server.SharedKernel.Command.{Command, CommandStatus, update_status}

-- What the worker calls of `CommandRepository`.
pub record CommandRepository (S : Type 0) : Type 0 where
  pub find_all_pending : S → Result (List Command)
  pub get_by_id : String → S → Result Command
  pub update : Command → Action S (Unit {0})

-- The store, and the commands handed to the topic `command_events`, the last one in front. An error
-- of `Publish` is only logged.
pub record World (S : Type 0) : Type 0 where
  pub store : S
  pub released : List Command

-- `CommandStatusUpdate`
pub record CommandStatusUpdate : Type 0 where
  pub command_id : String
  pub status : CommandStatus
  pub error_message : Option String

module _ {S : Type 0} (r : CommandRepository S) where
  -- The command is published once its update went through.
  abbrev pub released_if_ok : Command → Result (Unit {0}) × S → World S → World S
  released_if_ok cmd (ok _, s) w = record { store = s; released = cmd ∷ w.released }
  released_if_ok cmd (err _, s) w = record w { store = s }

  -- `handle`
  unfoldable pub handle : Time → Command → World S → World S
  handle now cmd w =
      if after cmd.dispatch_after now
      then w
      else released_if_ok (record cmd { ready = true })
          (r.update (record cmd { ready = true }) w.store) w

  unfoldable pub handle_all : Time → List Command → World S → World S
  handle_all now [] w = w
  handle_all now (cmd ∷ cmds) w = handle_all now cmds (handle now cmd w)

  -- `reconciliation`
  unfoldable pub reconciliation : Time → World S → World S
  reconciliation now w = elim (r.find_all_pending w.store) [
    | err _ ↦ w
    | ok cmds ↦ handle_all now cmds w
  ]

  -- `handleCommandSent`
  unfoldable pub handle_command_sent : Time → String → S → S
  handle_command_sent now id s = elim (r.get_by_id id s) [
    | err _ ↦ s
    | ok cmd ↦ (r.update (record cmd { is_sent = true; sent_at = now }) s).1
  ]

  -- `handleCommandStatusUpdate`
  unfoldable pub handle_command_status_update : Time → CommandStatusUpdate → S → S
  handle_command_status_update now u s =
      if u.command_id == "" then s else elim (r.get_by_id u.command_id s) [
        | err _ ↦ s
        | ok cmd ↦ (r.update (update_status now u.status u.error_message cmd) s).1
      ]
