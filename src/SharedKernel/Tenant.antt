-- ===== src/SharedKernel/Tenant.antt =====
-- internal/shared_kernel/domain/tenant.go. A method that reads `time.Now` takes the instant as `now`.
-- `Version` counts the updates from 1; it stays far below the range of `int`.
use zensor_server.Prelude.{
  ℕ, String, Bool, true, false, Option, none, some, List, Time, ◌==◌, string_eq, is_some,
  if◌then◌else◌, Result, ok, run_actions,
}

pub record Tenant : Type 0 where
  pub id : String
  pub name : String
  pub email : String
  pub description : String
  pub is_active : Bool
  pub version : ℕ
  pub created_at : Time
  pub updated_at : Time
  pub deleted_at : Option Time

unfoldable pub is_deleted : Tenant → Bool
is_deleted t = is_some t.deleted_at

unfoldable pub soft_delete : Time → Tenant → Tenant
soft_delete now t = record t { deleted_at = some now; is_active = false; updated_at = now }

unfoldable pub activate : Time → Tenant → Tenant
activate now t = record t { is_active = true; updated_at = now }

unfoldable pub deactivate : Time → Tenant → Tenant
deactivate now t = record t { is_active = false; updated_at = now }

-- A field is replaced by a value that is not empty.
abbrev pub given : String → String → String
given value old = if value == "" then old else value

unfoldable pub update_info : Time → String → String → String → Tenant → Tenant
update_info now name email description t = record t {
  name = given name t.name;
  email = given email t.email;
  description = given description t.description;
  updated_at = now;
}

-- The handlers of `tenantBuilder`.
abbrev pub with_name : String → Tenant → Result Tenant
with_name value t = ok (record t { name = value })

abbrev pub with_email : String → Tenant → Result Tenant
with_email value t = ok (record t { email = value })

abbrev pub with_description : String → Tenant → Result Tenant
with_description value t = ok (record t { description = value })

-- `Build`, with the generated identifier.
unfoldable pub build : String → Time → List (Tenant → Result Tenant) → Result Tenant
build uuid now actions = run_actions actions (record {
  id = uuid;
  name = "";
  email = "";
  description = "";
  is_active = true;
  version = 1;
  created_at = now;
  updated_at = now;
  deleted_at = none;
})
