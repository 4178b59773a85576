-- ===== src/ControlPlane/DeviceService/Tests.antt =====
-- A device in a table that has room for one row.
use zensor_server.Prelude.{
  ◌+◌, ◌≡◌, refl, String, Option, none, some, ◌==◌, string_eq, Time, ltb, if◌then◌else◌, ok, Action,
  arith,
}
use zensor_server.Infra.Orm.{Orm, OrmLaws}
use zensor_server.Infra.Orm.OneRow as OneRow
use zensor_server.SharedKernel.Command.{Command}
use zensor_server.SharedKernel.Device.{
  adopt_to_tenant, update_last_message_received_at, five_minutes, is_online,
}
use zensor_server.ControlPlane.DeviceRepository as Repository
use zensor_server.ControlPlane.DeviceRepository.{Row, to_domain, from_device}
use zensor_server.ControlPlane.DeviceService.{
  DevicePorts, adopt_device_to_tenant, update_last_message,
}
use zensor_server.ControlPlane.DeviceService.Adoption.{
  row_key, ports, adopt_effect, touched_device_is_online,
}

abbrev Table : Type 0
Table = Option Row

abbrev one_row : Orm Row Table
one_row = OneRow.one_row row_key

abbrev laws : OrmLaws row_key one_row
laws = OneRow.one_row_laws row_key

abbrev accept : Command → Action Table (Unit {0})
accept cmd s = (ok tt, s)

abbrev valve : Row
valve = record {
  id = "d1";
  version = 1;
  name = "valve-1";
  display_name = "Valve";
  app_eui = "a0";
  dev_eui = "d0";
  app_key = "k0";
  tenant_id = none;
  last_message_received_at = 0;
  created_at = 2;
  updated_at = 2;
}

abbrev service : Time → DevicePorts Table
service now = ports one_row now accept

adopts : (adopt_device_to_tenant (service 9) "t1" "d1" (some valve)).0 ≡ ok tt
unfolding adopt_device_to_tenant Repository.get Repository.update_device Repository.find_by_name
    to_domain from_device adopt_to_tenant
adopts = refl

adopt_effect_example :
    (old new : Row) × (OneRow.rows row_key "d1" (some valve) ≡ some old)
    × (to_domain new ≡ record (to_domain old) { tenant_id = some "t1" })
    × (new.version ≡ 1)
    × (new.created_at ≡ 9)
    × ((j : String)
        → OneRow.rows row_key j (adopt_device_to_tenant (service 9) "t1" "d1" (some valve)).1
          ≡ (if "d1" == j then some new else OneRow.rows row_key j (some valve)))
adopt_effect_example = adopt_effect one_row laws 9 accept "t1" "d1" (some valve) adopts

touches : (update_last_message (service 9) 8 "valve-1" (some valve)).0 ≡ ok tt
unfolding update_last_message Repository.update_device Repository.find_by_name to_domain from_device
    update_last_message_received_at
touches = refl

touched_device_is_online_example :
    (row : Row) × (OneRow.rows row_key row.id
        (update_last_message (service 9) 8 "valve-1" (some valve)).1
      ≡ some row)
    × (row.name ≡ "valve-1")
    × ((later : Time) → is_online later (to_domain row) ≡ ltb later (8 + five_minutes))
touched_device_is_online_example =
    touched_device_is_online one_row laws 9 accept 8 "valve-1" (some valve) touches (omega arith)
