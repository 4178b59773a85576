-- ===== src/Maintenance/Execution.antt =====
-- internal/maintenance/domain/execution.go: one due date of an activity. A method that reads
-- `time.Now` takes the instant as `now`; a value of `any` has the type `V`.
pub mod Laws
mod Tests
use zensor_server.Prelude.{
  ℕ, ◌/◌, String, Bool, true, false, ◌||◌, Option, none, some, List, [], ◌∷◌, ◌++◌, ℤ, pos, int_eq,
  string_eq, Time, is_zero, before, after, elapsed, day, ◌==◌, nat_eq, contains, is_some,
  if◌then◌else◌, Dict, copy_into, Result, ok, err, sentinel, activity_id_required,
  scheduled_date_required, run_actions,
}

pub record Execution (V : Type 0) : Type 0 where
  pub id : String
  pub version : ℕ
  pub activity_id : String
  pub scheduled_date : Time
  pub completed_at : Option Time
  pub completed_by : Option String
  pub overdue_days : ℤ
  pub field_values : Dict String V
  pub notification_days_sent : List ℤ
  pub created_at : Time
  pub updated_at : Time
  pub deleted_at : Option Time

module _ {V : Type 0} where
  unfoldable pub has_notification_day_sent : Execution V → ℤ → Bool
  has_notification_day_sent e d = contains e.notification_days_sent d

  unfoldable pub mark_notification_day_sent : Time → Execution V → ℤ → Execution V
  unfolding has_notification_day_sent
  mark_notification_day_sent now e d = if has_notification_day_sent e d then e else record e {
    notification_days_sent = e.notification_days_sent ++ (d ∷ []);
    updated_at = now;
  }

  unfoldable pub is_deleted : Execution V → Bool
  is_deleted e = is_some e.deleted_at

  unfoldable pub soft_delete : Time → Execution V → Execution V
  soft_delete now e = record e { deleted_at = some now; updated_at = now }

  -- A nil map and an empty one read alike.
  unfoldable pub mark_completed : Time → String → Dict String V → Execution V → Execution V
  mark_completed now by values e = record e {
    completed_at = some now;
    completed_by = some by;
    overdue_days = pos 0;
    updated_at = now;
    field_values = copy_into values e.field_values;
  }

  unfoldable pub is_completed : Execution V → Bool
  is_completed e = is_some e.completed_at

  unfoldable pub is_overdue : Time → Execution V → Bool
  unfolding is_completed
  is_overdue now e = if is_completed e then false else after now e.scheduled_date

  unfoldable pub is_scheduled_in_the_future : Execution V → Time → Bool
  is_scheduled_in_the_future e as_of = after e.scheduled_date as_of

  -- The test `days < 0` of the source never holds of a quotient of natural numbers.
  unfoldable pub calculate_overdue_days : Execution V → Time → ℕ
  unfolding is_completed
  calculate_overdue_days e current =
      if is_completed e
      then 0
      else if before current e.scheduled_date || current == e.scheduled_date
      then 0
      else elapsed current e.scheduled_date / day

  -- The handlers of `executionBuilder`.
  abbrev pub with_activity_id : String → Execution V → Result (Execution V)
  with_activity_id value e = ok (record e { activity_id = value })

  abbrev pub with_scheduled_date : Time → Execution V → Result (Execution V)
  with_scheduled_date value e = ok (record e { scheduled_date = value })

  abbrev pub with_field_values : Dict String V → Execution V → Result (Execution V)
  with_field_values value e = ok (record e { field_values = value })

  -- The value that `Build` starts from, with the generated identifier.
  abbrev pub new_execution : String → Time → Execution V
  new_execution uuid now = record {
    id = uuid;
    version = 1;
    activity_id = "";
    scheduled_date = 0;
    completed_at = none;
    completed_by = none;
    overdue_days = pos 0;
    field_values = [];
    notification_days_sent = [];
    created_at = now;
    updated_at = now;
    deleted_at = none;
  }

  abbrev check_execution : Execution V → Result (Execution V)
  check_execution e =
      if e.activity_id == ""
      then err (sentinel activity_id_required)
      else if is_zero e.scheduled_date
      then err (sentinel scheduled_date_required)
      else ok e

  -- `Build`
  unfoldable pub build :
      String → Time → List (Execution V → Result (Execution V)) → Result (Execution V)
  unfolding run_actions
  build uuid now actions = elim (run_actions actions (new_execution uuid now)) [
    | ok e ↦ check_execution e
    | err e ↦ err e
  ]
