-- ===== src/Maintenance/ExecutionService.antt =====
-- internal/maintenance/usecases/execution_service.go.
pub mod Completion
mod Tests
use zensor_server.Prelude.{
  String, Bool, true, false, ◌≡◌, Time, if◌then◌else◌, Dict, Result, ok, err, Err, is_error, wrap,
  wrap_error, sentinel, Action, activity_not_found, execution_not_found, execution_deleted,
  execution_already_completed, execution_scheduled_in_future,
}
use zensor_server.Maintenance.Execution.{
  Execution, is_deleted, is_completed, is_scheduled_in_the_future,
}
use zensor_server.Maintenance.Ports.{ExecutionRepository, ActivityRepository}

module _ {V S : Type 0} (r : ExecutionRepository V S) (activities : ActivityRepository V S) where
  unfoldable pub create_execution : Execution V → Action S (Unit {0})
  create_execution x s = elim (activities.get_by_id x.activity_id s) [
    | err e ↦ (
      (if is_error e activity_not_found
          then err (sentinel activity_not_found)
          else err (wrap "getting maintenance activity" e)),
      s,
    )
    | ok _ ↦
        let (result, s') = r.create x s in (wrap_error "creating maintenance execution" result, s')
  ]

  unfoldable pub get_execution : String → S → Result (Execution V)
  get_execution id s = elim (r.get_by_id id s) [
    | ok x ↦ ok x
    | err e ↦
        if is_error e execution_not_found
        then err (sentinel execution_not_found)
        else err (wrap "getting maintenance execution" e)
  ]

  unfoldable pub mark_execution_completed :
      Time → String → String → Dict String V → Action S (Unit {0})
  mark_execution_completed now id by values s = elim (r.get_by_id id s) [
    | err e ↦ (
      (if is_error e execution_not_found
          then err (sentinel execution_not_found)
          else err (wrap "getting maintenance execution" e)),
      s,
    )
    | ok x ↦
        if is_deleted x
        then (err (sentinel execution_deleted), s)
        else if is_completed x
        then (err (sentinel execution_already_completed), s)
        else if is_scheduled_in_the_future x now
        then (err (sentinel execution_scheduled_in_future), s)
        else let (result, s') = r.mark_completed id by values s in
          (wrap_error "marking maintenance execution as completed" result, s')
  ]
