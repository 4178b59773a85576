-- ===== src/ControlPlane/DeviceService.antt =====
-- internal/control_plane/usecases/device_service.go over its two repositories, which share the store `S`.
-- The listings pass their calls on.
pub mod Adoption
mod Tests
use zensor_server.Prelude.{
  ℕ, String, Bool, true, false, List, [], ◌∷◌, Time, ◌==◌, nat_eq, if◌then◌else◌, Result, ok, err,
  Err, sentinel, wrap, foreign, is_error, wrap_error, Action, ◌>>=◌, ◌>>◌, device_not_found,
  device_duplicated, unknown_error,
}
use zensor_server.SharedKernel.Device.{
  Device, adopt_to_tenant, update_display_name, update_last_message_received_at,
}
use zensor_server.SharedKernel.Command.{Command}

-- `DeviceRepository` and the `Create` of `CommandRepository`.
pub record DevicePorts (S : Type 0) : Type 0 where
  pub create_device : Device → Action S (Unit {0})
  pub update_device : Device → Action S (Unit {0})
  pub get : String → S → Result Device
  pub find_by_name : String → S → Result Device
  pub create_command : Command → Action S (Unit {0})

-- `errors.Is(ErrDeviceDuplicated, err)`: the error is the sentinel itself, not a wrapped one.
abbrev pub is_exactly_duplicated : Err → Bool
is_exactly_duplicated (sentinel s) = is_error (sentinel s) device_duplicated
is_exactly_duplicated (wrap _ _) = false
is_exactly_duplicated (foreign _) = false

abbrev pub or_unknown : {A : Type 0} → Result A → Result A
or_unknown (ok a) = ok a
or_unknown (err e) = err (sentinel unknown_error)

-- An error of a lookup, with the answer for any further one.
abbrev pub lookup_error : Err → Err → Err
lookup_error e further = if is_error e device_not_found then sentinel device_not_found else further

module _ {S : Type 0} (p : DevicePorts S) where
  abbrev pub created_device : Result (Unit {0}) × S → Result (Unit {0}) × S
  created_device (ok _, s) = (ok tt, s)
  created_device (err e, s) =
      if is_exactly_duplicated e
      then (err (sentinel device_duplicated), s)
      else (err (sentinel unknown_error), s)

  unfoldable pub create_device : Device → Action S (Unit {0})
  create_device device s = created_device (p.create_device device s)

  unfoldable pub get_device : String → S → Result Device
  get_device id s = or_unknown (p.get id s)

  abbrev pub unknown_unless_ok : Result (Unit {0}) × S → Result (Unit {0}) × S
  unknown_unless_ok (result, s) = (or_unknown result, s)

  abbrev pub rename : String → Result Device → Action S (Unit {0})
  rename display_name (err e) s = (err (lookup_error e (sentinel unknown_error)), s)
  rename display_name (ok device) s =
      unknown_unless_ok (p.update_device (update_display_name display_name device) s)

  unfoldable pub update_device_display_name : String → String → Action S (Unit {0})
  update_device_display_name device_id display_name s = rename display_name (p.get device_id s) s

  abbrev pub wrapped : String → Result (Unit {0}) × S → Result (Unit {0}) × S
  wrapped context (result, s) = (wrap_error context result, s)

  abbrev pub queue_for : Command → Result Device → Action S (Unit {0})
  queue_for cmd (err e) s = (err (lookup_error e (wrap "get device" e)), s)
  queue_for cmd (ok device) s =
      wrapped "dispatch event" (p.create_command (record cmd { device = device }) s)

  abbrev pub default_port : Command → Command
  default_port cmd = if cmd.port == 0 then record cmd { port = 1 } else cmd

  unfoldable pub queue_command : Command → Action S (Unit {0})
  queue_command cmd s = queue_for (default_port cmd) (p.get cmd.device.id s) s

  abbrev pub adopt : String → Result Device → Action S (Unit {0})
  adopt tenant_id (err e) s = (err (lookup_error e (wrap "getting device" e)), s)
  adopt tenant_id (ok device) s =
      wrapped "updating device" (p.update_device (adopt_to_tenant tenant_id device) s)

  unfoldable pub adopt_device_to_tenant : String → String → Action S (Unit {0})
  adopt_device_to_tenant tenant_id device_id s = adopt tenant_id (p.get device_id s) s

  -- The loop of `QueueCommandSequence`, which stops at the first error.
  unfoldable pub queue_command_sequence : List Command → Action S (Unit {0})
  queue_command_sequence [] s = (ok tt, s)
  queue_command_sequence (cmd ∷ cmds) s = (queue_command cmd >> queue_command_sequence cmds) s

  abbrev pub touch : Time → Result Device → Action S (Unit {0})
  touch now (err e) s = (err (lookup_error e (wrap "getting device" e)), s)
  touch now (ok device) s =
      wrapped "updating device" (p.update_device (update_last_message_received_at now device) s)

  -- `UpdateLastMessageReceivedAt`
  unfoldable pub update_last_message : Time → String → Action S (Unit {0})
  update_last_message now device_name s = touch now (p.find_by_name device_name s) s
