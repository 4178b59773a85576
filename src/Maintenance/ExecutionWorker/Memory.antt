-- ===== src/Maintenance/ExecutionWorker/Memory.antt =====
-- A worker over a list of executions, which the theorems on the worker are run with.
use zensor_server.Prelude.{
  Option, some, none, ℕ, suc, ◌*◌, ◌<◌, ◌≡◌, refl, String, Bool, true, List, [], ◌∷◌, map, pos,
  string_eq, nat_eq, Time, day, ◌==◌, if◌then◌else◌, Result, ok, err, is_error, Err, sentinel,
  execution_not_found, activity_not_found, arith,
}
use zensor_server.Maintenance.Calendar.{plain_calendar}
use zensor_server.Maintenance.Schedule.{week_unit}
use zensor_server.Maintenance.Execution.{Execution, mark_completed}
use zensor_server.Maintenance.Activity.{Activity, new_activity}
use zensor_server.Maintenance.Ports.{
  ExecutionRepository, ActivityRepository, TenantPort, ScheduleLaws, RowLaws, scheduled_at,
}
use zensor_server.Maintenance.ExecutionWorker.{Worker}

abbrev pub pump : Activity ℕ
pump = record (new_activity "a1" (5 * day)) {
  tenant_id = "t1";
  name = "Water pump";
  schedule = record { start_date = 3 * day; every = pos 2; unit = week_unit };
  notification_days_before = pos 7 ∷ pos 1 ∷ [];
}

abbrev pub Rows : Type 0
Rows = List (Execution ℕ)

abbrev pub find_row : (Execution ℕ → Bool) → Rows → Result (Execution ℕ)
find_row p [] = err (sentinel execution_not_found)
find_row p (x ∷ xs) = let rest = find_row p xs in if p x then ok x else rest

abbrev pub replace_row : Execution ℕ → Rows → Rows
replace_row x = map (λ y. if y.id == x.id then x else y)

abbrev pub executions : ExecutionRepository ℕ Rows
executions = record {
  create = λ x s. (ok tt, x ∷ s);
  get_by_id = λ id. find_row (λ x. x.id == id);
  find_by_activity_and_scheduled_date = λ a d. find_row (scheduled_at a d);
  update = λ x s. (ok tt, replace_row x s);
  mark_completed = λ id by values s.
      (ok tt, map (λ x. if x.id == id then mark_completed 0 by values x else x) s);
  find_pending_executions_ready_for_notification = λ now s. ok (map (λ x. (x, pump)) s);
  find_overdue_executions = λ s. ok (map (λ x. (x, pump)) s);
}

abbrev pub activities : ActivityRepository ℕ Rows
activities = record {
  create = λ a s. (ok tt, s);
  get_by_id = λ id s. if id == "a1" then ok pump else err (sentinel activity_not_found);
  find_all_active = λ s. ok (pump ∷ []);
  update = λ a s. (ok tt, s);
  delete = λ id s. (ok tt, s);
}

abbrev pub tenants : TenantPort Rows
tenants = record { get_tenant = λ id s. ok tt; get_or_create_configuration = λ id s. s }

abbrev pub worker : Worker ℕ Rows
worker = record {
  calendar = plain_calendar;
  executions = executions;
  activities = activities;
  tenants = tenants;
  generate_uuid = λ s. "e";
}

abbrev pub rows_at : String → Time → Rows → ℕ
rows_at a d [] = 0
rows_at a d (x ∷ xs) = let rest = rows_at a d xs in if scheduled_at a d x then suc rest else rest

pub find_row-absent :
    (a : String) (d : Time) (s : Rows) {e : Err}
    → find_row (scheduled_at a d) s ≡ err e
    → rows_at a d s ≡ 0
find_row-absent a d [] h = refl
find_row-absent a d (x ∷ xs) {e} h = ground (arith, find_row-absent a d xs {e = e})

pub find_row-present :
    (a : String) (d : Time) (s : Rows) {x : Execution ℕ}
    → find_row (scheduled_at a d) s ≡ ok x
    → 0 < rows_at a d s
find_row-present a d [] h = cc
find_row-present a d (y ∷ xs) {x} h = ground (arith, find_row-present a d xs {x = x})

pub find_row-answers :
    (p : Execution ℕ → Bool) (s : Rows) {e : Err}
    → find_row p s ≡ err e
    → is_error e execution_not_found ≡ true
find_row-answers p [] h = ground (arith, h)
find_row-answers p (y ∷ xs) {e} h = ground (arith, find_row-answers p xs {e = e})

pub create_works :
    (x : Execution ℕ) (s : Rows) (a : String) (d : Time) {e : Err}
    → (executions.create x s).0 ≡ err e
    → rows_at a d (executions.create x s).1 ≡ rows_at a d s
create_works x s a d h = cc

abbrev pub schedule_laws : ScheduleLaws executions tenants
schedule_laws = record {
  rows_at = rows_at;
  find_absent = λ a d s h _. find_row-absent a d s h;
  find_present = λ a d s h. find_row-present a d s h;
  create_ok = λ x s a d _. refl;
  create_err = λ x s a d h. create_works x s a d h;
  configuration_keeps = λ t a d s. refl;
}

-- The row of an identifier, the oldest where several share it.
abbrev pub row : String → Rows → Option (Execution ℕ)
row id [] = none
row id (x ∷ xs) = elim (row id xs) [ some y ↦ some y | none ↦ if x.id == id then some x else none ]

pub row-create :
    (x : Execution ℕ) (s : Rows) (id : String) {y : Execution ℕ}
    → row id s ≡ some y
    → row id (executions.create x s).1 ≡ some y
row-create x s id h = rw h refl

abbrev pub row_laws : RowLaws executions tenants
row_laws = record {
  row = row;
  create_keeps = λ x s id h. row-create x s id h;
  configuration_keeps_row = λ tenant s id h. h;
}
