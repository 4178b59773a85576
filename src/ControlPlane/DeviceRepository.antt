-- ===== src/ControlPlane/DeviceRepository.antt =====
-- internal/control_plane/persistence/device_repository.go over the ORM, and its row,
-- internal/control_plane/persistence/internal/device.go. The listings are left out.
use zensor_server.Prelude.{
  ℕ, String, not, Option, Time, ◌==◌, string_eq, if◌then◌else◌, Result, ok, err, is_error, wrap,
  wrap_error, sentinel, Action, record_not_found, device_not_found, device_duplicated,
}
use zensor_server.Infra.Orm.{Orm}
use zensor_server.SharedKernel.Device.{Device}

-- The entity `Device`.
pub record Row : Type 0 where
  pub id : String
  pub version : ℕ
  pub name : String
  pub display_name : String
  pub app_eui : String
  pub dev_eui : String
  pub app_key : String
  pub tenant_id : Option String
  pub last_message_received_at : Time
  pub created_at : Time
  pub updated_at : Time

unfoldable pub to_domain : Row → Device
to_domain s = record {
  id = s.id;
  name = s.name;
  display_name = s.display_name;
  app_eui = s.app_eui;
  dev_eui = s.dev_eui;
  app_key = s.app_key;
  tenant_id = s.tenant_id;
  last_message_received_at = s.last_message_received_at;
}

-- `FromDevice` reads the clock for the two times.
unfoldable pub from_device : Time → Device → Row
from_device now d = record {
  id = d.id;
  version = 1;
  name = d.name;
  display_name = d.display_name;
  app_eui = d.app_eui;
  dev_eui = d.dev_eui;
  app_key = d.app_key;
  tenant_id = d.tenant_id;
  last_message_received_at = d.last_message_received_at;
  created_at = now;
  updated_at = now;
}

-- The two error tests after a query.
abbrev pub read_row : Result Row → Result Device
read_row (ok row) = ok (to_domain row)
read_row (err e) =
    if is_error e record_not_found
    then err (sentinel device_not_found)
    else err (wrap "database query" e)

module _ {S : Type 0} (o : Orm Row S) where
  abbrev pub wrapped : String → Result (Unit {0}) × S → Result (Unit {0}) × S
  wrapped context (result, s) = (wrap_error context result, s)

  unfoldable pub find_by_name : String → S → Result Device
  find_by_name name s = read_row (o.first_where (λ row. row.name == name) s)

  unfoldable pub get : String → S → Result Device
  get id s = read_row (o.first id s)

  -- `CreateDevice` once the name has been looked up; the device of a lookup that failed has the
  -- empty identifier.
  abbrev pub create_named : Time → Device → Result Device → Action S (Unit {0})
  create_named now device (err e) s =
      if not (is_error e device_not_found)
      then (err (wrap "getting device" e), s)
      else wrapped "creating device in database" (o.create (from_device now device) s)
  create_named now device (ok current) s =
      if not (current.id == "")
      then (err (sentinel device_duplicated), s)
      else wrapped "creating device in database" (o.create (from_device now device) s)

  unfoldable pub create_device : Time → Device → Action S (Unit {0})
  create_device now device s = create_named now device (find_by_name device.name s) s

  -- `UpdateDevice` once the name has been looked up.
  abbrev pub update_named : Time → Device → Result Device → Action S (Unit {0})
  update_named now device (err e) s =
      if not (is_error e device_not_found)
      then (err (wrap "getting device" e), s)
      else (err (sentinel device_not_found), s)
  update_named now device (ok current) s =
      if current.id == ""
      then (err (sentinel device_not_found), s)
      else wrapped "updating device in database" (o.save (from_device now device) s)

  unfoldable pub update_device : Time → Device → Action S (Unit {0})
  update_device now device s = update_named now device (find_by_name device.name s) s
