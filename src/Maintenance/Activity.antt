-- ===== src/Maintenance/Activity.antt =====
-- internal/maintenance/domain/activity.go and field_definition.go: a recurring maintenance activity
-- of a tenant. A value of `any` has the type `V`.
pub mod Laws
mod Tests
use zensor_server.Prelude.{
  ℕ, ◌-◌, String, Bool, true, false, Option, none, some, List, [], ◌∷◌, ℤ, pos, int_eq, string_eq,
  Time, second, whole_days, ◌==◌, is_some, if◌then◌else◌, Dict, insert, Result, ok, err,
  run_actions,
}
use zensor_server.Maintenance.Calendar.{Calendar}
use zensor_server.Maintenance.Schedule.{Schedule, RecurrenceUnit, other, next}

pub data FieldType : Type 0 where
  text number date boolean : FieldType

pub record FieldDefinition (V : Type 0) : Type 0 where
  pub name : String
  pub display_name : String
  pub type : FieldType
  pub is_required : Bool
  pub default_value : Option V

-- `ActivityType` of internal/maintenance/domain/activity_type.go.
pub record ActivityType (V : Type 0) : Type 0 where
  pub id : String
  pub name : String
  pub display_name : String
  pub description : String
  pub is_predefined : Bool
  pub fields : List (FieldDefinition V)
  pub created_at : Time

abbrev pub zero_type : {V : Type 0} → ActivityType V
zero_type = record {
  id = "";
  name = "";
  display_name = "";
  description = "";
  is_predefined = false;
  fields = [];
  created_at = 0;
}

pub record Activity (V : Type 0) : Type 0 where
  pub id : String
  pub version : ℕ
  pub tenant_id : String
  pub type : ActivityType V
  pub custom_type_name : Option String
  pub name : String
  pub description : String
  pub schedule : Schedule
  pub notification_days_before : List ℤ
  pub fields : List (FieldDefinition V)
  pub is_active : Bool
  pub created_at : Time
  pub updated_at : Time
  pub deleted_at : Option Time

-- The loop over the notification days.
abbrev pub matching_day : ℤ → List ℤ → Bool × ℤ
matching_day days_until [] = (false, pos 0)
matching_day days_until (d ∷ ds) = if days_until == d then (true, d) else matching_day days_until ds

module _ {V : Type 0} where
  unfoldable pub is_deleted : Activity V → Bool
  is_deleted a = is_some a.deleted_at

  unfoldable pub soft_delete : Time → Activity V → Activity V
  soft_delete now a = record a { deleted_at = some now; is_active = false; updated_at = now }

  unfoldable pub activate : Time → Activity V → Activity V
  activate now a = record a { is_active = true; updated_at = now }

  unfoldable pub deactivate : Time → Activity V → Activity V
  deactivate now a = record a { is_active = false; updated_at = now }

  unfoldable pub is_ready_for_notification : Activity V → Time → Time → Bool × ℤ
  is_ready_for_notification a scheduled current =
      matching_day (whole_days scheduled current) a.notification_days_before

  -- The handlers of `activityBuilder`.
  abbrev pub with_tenant_id : String → Activity V → Result (Activity V)
  with_tenant_id value a = ok (record a { tenant_id = value })

  abbrev pub with_type : ActivityType V → Activity V → Result (Activity V)
  with_type value a = ok (record a { type = value })

  abbrev pub with_custom_type_name : String → Activity V → Result (Activity V)
  with_custom_type_name value a = ok (record a { custom_type_name = some value })

  abbrev pub with_name : String → Activity V → Result (Activity V)
  with_name value a = ok (record a { name = value })

  abbrev pub with_description : String → Activity V → Result (Activity V)
  with_description value a = ok (record a { description = value })

  abbrev pub with_schedule : Schedule → Activity V → Result (Activity V)
  with_schedule value a = ok (record a { schedule = value })

  abbrev pub with_notification_days_before : List ℤ → Activity V → Result (Activity V)
  with_notification_days_before value a = ok (record a { notification_days_before = value })

  abbrev pub with_fields : List (FieldDefinition V) → Activity V → Result (Activity V)
  with_fields value a = ok (record a { fields = value })

  -- The value that `Build` starts from; the zero schedule has no start date.
  abbrev pub new_activity : String → Time → Activity V
  new_activity uuid now = record {
    id = uuid;
    version = 1;
    tenant_id = "";
    type = zero_type;
    custom_type_name = none;
    name = "";
    description = "";
    schedule = record { start_date = 0; every = pos 0; unit = other };
    notification_days_before = [];
    fields = [];
    is_active = true;
    created_at = now;
    updated_at = now;
    deleted_at = none;
  }

  -- The last check of `Build`: the schedule has an occurrence after one second ago. `none` means
  -- that the fuel of `Next` ran out.
  abbrev check_schedule : Calendar → ℕ → Time → Activity V → Result (Option (Activity V))
  check_schedule c fuel now a = elim (next c fuel a.schedule (now - second)) [
    | ok none ↦ ok none
    | ok (some _) ↦ ok (some a)
    | err e ↦ err e
  ]

  unfoldable pub build :
      Calendar
      → ℕ
      → String
      → Time
      → List (Activity V → Result (Activity V))
      → Result (Option (Activity V))
  unfolding run_actions
  build c fuel uuid now actions = elim (run_actions actions (new_activity uuid now)) [
    | ok a ↦ check_schedule c fuel now a
    | err e ↦ err e
  ]

  -- `buildFieldValuesFromActivity` of the execution worker: the defaults of the fields.
  unfoldable pub default_values : List (FieldDefinition V) → Dict String V → Dict String V
  default_values [] values = values
  default_values (f ∷ fs) values =
      default_values fs (elim f.default_value [ none ↦ values | some v ↦ insert f.name v values ])
