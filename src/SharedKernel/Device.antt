-- ===== src/SharedKernel/Device.antt =====
-- internal/shared_kernel/domain/device.go, without the sector and the evaluation rules of a device, which
-- its row does not hold. A method that reads `time.Now` takes the instant as `now`.
use zensor_server.Prelude.{
  ℕ, ◌-◌, ◌*◌, String, Bool, false, not, Option, none, some, is_some, List, Time, is_zero, after,
  second, ◌==◌, string_eq, if◌then◌else◌, Result, ok, run_actions,
}

pub record Device : Type 0 where
  pub id : String
  pub name : String
  pub display_name : String
  pub app_eui : String
  pub dev_eui : String
  pub app_key : String
  pub tenant_id : Option String
  pub last_message_received_at : Time

-- `Device{}`
abbrev pub no_device : Device
no_device = record {
  id = "";
  name = "";
  display_name = "";
  app_eui = "";
  dev_eui = "";
  app_key = "";
  tenant_id = none;
  last_message_received_at = 0;
}

unfoldable pub adopt_to_tenant : String → Device → Device
adopt_to_tenant tenant_id d = record d { tenant_id = some tenant_id }

unfoldable pub is_orphan : Device → Bool
is_orphan d = not (is_some d.tenant_id)

unfoldable pub belongs_to_tenant : String → Device → Bool
belongs_to_tenant tenant_id d = elim d.tenant_id [ none ↦ false | some id ↦ id == tenant_id ]

unfoldable pub update_display_name : String → Device → Device
update_display_name display_name d = record d { display_name = display_name }

unfoldable pub update_last_message_received_at : Time → Device → Device
update_last_message_received_at timestamp d = record d { last_message_received_at = timestamp }

abbrev pub five_minutes : ℕ
five_minutes = 300 * second

unfoldable pub is_online : Time → Device → Bool
is_online now d =
    if is_zero d.last_message_received_at
    then false
    else after d.last_message_received_at (now - five_minutes)

unfoldable pub get_status : Time → Device → String
get_status now d = if is_online now d then "online" else "offline"

-- The handlers of `deviceBuilder`.
abbrev pub with_name : String → Device → Result Device
with_name value d = ok (record d { name = value })

abbrev pub with_display_name : String → Device → Result Device
with_display_name value d = ok (record d { display_name = value })

abbrev pub with_tenant : String → Device → Result Device
with_tenant tenant_id d = ok (record d { tenant_id = some tenant_id })

abbrev pub with_app_eui : String → Device → Result Device
with_app_eui value d = ok (record d { app_eui = value })

abbrev pub with_dev_eui : String → Device → Result Device
with_dev_eui value d = ok (record d { dev_eui = value })

abbrev pub with_app_key : String → Device → Result Device
with_app_key value d = ok (record d { app_key = value })

-- `Build`, with the generated identifier and keys.
unfoldable pub build :
    String → String → String → String → List (Device → Result Device) → Result Device
build uuid dev_eui app_eui app_key actions = run_actions actions (record {
  id = uuid;
  name = "";
  display_name = "";
  app_eui = app_eui;
  dev_eui = dev_eui;
  app_key = app_key;
  tenant_id = none;
  last_message_received_at = 0;
})
