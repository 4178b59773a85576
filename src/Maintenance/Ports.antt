-- ===== src/Maintenance/Ports.antt =====
-- The ports that the use cases of maintenance call (internal/maintenance/usecases/repository_port.go),
-- over a store `S`, with what the use cases rely on. A read leaves the store as it is; a write
-- returns the store that it leaves behind, also when it fails.
use zensor_server.Prelude.{
  Option, some, ℕ, suc, ◌<◌, ◌≡◌, String, Bool, true, ◌&&◌, List, Time, ◌==◌, nat_eq, string_eq,
  if◌then◌else◌, Dict, Result, ok, err, is_error, Err, Action, execution_not_found,
}
use zensor_server.Maintenance.Execution.{Execution}
use zensor_server.Maintenance.Activity.{Activity}

-- `ExecutionWithActivity`
abbrev pub Pending : Type 0 → Type 0
Pending V = Execution V × Activity V

pub record ExecutionRepository (V S : Type 0) : Type 0 where
  pub create : Execution V → Action S (Unit {0})
  pub get_by_id : String → S → Result (Execution V)
  pub find_by_activity_and_scheduled_date : String → Time → S → Result (Execution V)
  pub update : Execution V → Action S (Unit {0})
  pub mark_completed : String → String → Dict String V → Action S (Unit {0})
  pub find_pending_executions_ready_for_notification : Time → S → Result (List (Pending V))
  pub find_overdue_executions : S → Result (List (Pending V))

pub record ActivityRepository (V S : Type 0) : Type 0 where
  pub create : Activity V → Action S (Unit {0})
  pub get_by_id : String → S → Result (Activity V)
  pub find_all_active : S → Result (List (Activity V))
  pub update : Activity V → Action S (Unit {0})
  pub delete : String → Action S (Unit {0})

-- The tenant services that the worker calls. The configuration decides the location that the
-- instants are shown in, and reading it may create it; no instant depends on the outcome.
pub record TenantPort (S : Type 0) : Type 0 where
  pub get_tenant : String → S → Result (Unit {0})
  pub get_or_create_configuration : String → S → S

-- One row matches `activity_id = ? AND scheduled_date = ?`.
abbrev pub scheduled_at : {V : Type 0} → String → Time → Execution V → Bool
scheduled_at a d e = e.activity_id == a && e.scheduled_date == d

-- The rows of executions by identifier: an insertion, successful or not, and the read of a tenant's
-- configuration change no row that is there.
pub record RowLaws {V S : Type 0} (r : ExecutionRepository V S) (t : TenantPort S) : Type 0 where
  pub row : String → S → Option (Execution V)
  pub create_keeps :
      (x : Execution V) (s : S) (id : String) {y : Execution V}
      → row id s ≡ some y
      → row id (r.create x s).1 ≡ some y
  pub configuration_keeps_row :
      (tenant : String) (s : S) (id : String) {y : Execution V}
      → row id s ≡ some y
      → row id (t.get_or_create_configuration tenant s) ≡ some y

-- The rows of executions, counted by activity and date: a lookup fails with `ErrExecutionNotFound`
-- only where there is none, a successful insertion adds one row, and a failed one adds none.
pub record ScheduleLaws {V S : Type 0} (r : ExecutionRepository V S) (t : TenantPort S)
    : Type 0 where
  pub rows_at : String → Time → S → ℕ
  pub find_absent :
      (a : String) (d : Time) (s : S) {e : Err}
      → r.find_by_activity_and_scheduled_date a d s ≡ err e
      → is_error e execution_not_found ≡ true
      → rows_at a d s ≡ 0
  pub find_present :
      (a : String) (d : Time) (s : S) {x : Execution V}
      → r.find_by_activity_and_scheduled_date a d s ≡ ok x
      → 0 < rows_at a d s
  pub create_ok :
      (x : Execution V) (s : S) (a : String) (d : Time)
      → (r.create x s).0 ≡ ok tt
      → rows_at a d (r.create x s).1
        ≡ (if scheduled_at a d x then suc (rows_at a d s) else rows_at a d s)
  pub create_err :
      (x : Execution V) (s : S) (a : String) (d : Time) {e : Err}
      → (r.create x s).0 ≡ err e
      → rows_at a d (r.create x s).1 ≡ rows_at a d s
  pub configuration_keeps :
      (tenant a : String) (d : Time) (s : S)
      → rows_at a d (t.get_or_create_configuration tenant s) ≡ rows_at a d s
