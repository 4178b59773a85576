-- ===== src/Maintenance/ExecutionService/Tests.antt =====
-- A completion in a repository that holds one execution.
use zensor_server.Prelude.{
  ℕ, ◌*◌, ◌≡◌, refl, ◌⊎◌, String, true, false, [], string_eq, day, ◌==◌, ==_iff, Dict,
  if◌then◌else◌, ok, err, is_ok, sentinel, execution_not_found, activity_not_found, arith,
}
use zensor_server.Maintenance.Execution.{
  Execution, new_execution, mark_completed, is_completed, is_deleted, is_scheduled_in_the_future,
}
use zensor_server.Maintenance.Ports.{ExecutionRepository, ActivityRepository}
use zensor_server.Maintenance.ExecutionService.{mark_execution_completed}
use zensor_server.Maintenance.ExecutionService.Completion.{
  IsDue, CompletionLaws, mark_execution_completed_outcome, completed_once,
}

abbrev Row : Type 0
Row = Execution ℕ

abbrev filter_change : Row
filter_change = record (new_execution "e1" 5) { activity_id = "a1"; scheduled_date = 20 * day }

abbrev one_row : ExecutionRepository ℕ Row
one_row = record {
  create = λ x s. (err (sentinel execution_not_found), s);
  get_by_id = λ id s. if s.id == id then ok s else err (sentinel execution_not_found);
  find_by_activity_and_scheduled_date = λ a d s. err (sentinel execution_not_found);
  update = λ x s. if x.id == s.id then (ok tt, x) else (err (sentinel execution_not_found), s);
  mark_completed = λ id by values s.
      if s.id == id
      then (ok tt, mark_completed 7 by values s)
      else (err (sentinel execution_not_found), s);
  find_pending_executions_ready_for_notification = λ now s. ok [];
  find_overdue_executions = λ s. ok [];
}

abbrev no_activities : ActivityRepository ℕ Row
no_activities = record {
  create = λ a s. (ok tt, s);
  get_by_id = λ id s. err (sentinel activity_not_found);
  find_all_active = λ s. ok [];
  update = λ a s. (ok tt, s);
  delete = λ id s. (ok tt, s);
}

one_row-stored :
    (id by : String) (values : Dict String ℕ) (s x : Row)
    → (one_row.mark_completed id by values s).0 ≡ ok tt
    → one_row.get_by_id id (one_row.mark_completed id by values s).1 ≡ ok x
    → is_completed x ≡ true
unfolding mark_completed is_completed
one_row-stored id by values s x h found = ground (arith, ==_iff s.id id)

abbrev one_row_laws : CompletionLaws one_row
one_row_laws = record {
  completion_stored = λ id by values s {x} h found. one_row-stored id by values s x h found;
}

abbrev no_values : Dict String ℕ
no_values = []

mark_execution_completed_outcome_example :
    let run =
      mark_execution_completed one_row no_activities
        (21 * day)
        "e1"
        "ann"
        no_values
        filter_change in
    ((x : Row) × (one_row.get_by_id "e1" filter_change ≡ ok x)
      × IsDue (21 * day) x
      × (run.1 ≡ (one_row.mark_completed "e1" "ann" no_values filter_change).1)
      × (is_ok run.0 ≡ is_ok (one_row.mark_completed "e1" "ann" no_values filter_change).0))
    ⊎ ((is_ok run.0 ≡ false)
        × (run.1 ≡ filter_change)
        × ((x : Row) → one_row.get_by_id "e1" filter_change ≡ ok x → IsDue (21 * day) x → ⊥))
mark_execution_completed_outcome_example =
    mark_execution_completed_outcome one_row no_activities (21 * day) "e1" "ann" no_values
      filter_change

completes :
    (mark_execution_completed one_row no_activities (21 * day) "e1" "ann" no_values filter_change).0
    ≡ ok tt
unfolding mark_execution_completed is_deleted is_completed is_scheduled_in_the_future
completes = refl

completed_once_example :
    let s' =
      (mark_execution_completed one_row no_activities
        (21 * day)
        "e1"
        "ann"
        no_values
        filter_change).1 in
    let run = mark_execution_completed one_row no_activities (22 * day) "e1" "bob" no_values s' in
    (is_ok run.0 ≡ false) × (run.1 ≡ s')
completed_once_example =
    completed_once one_row no_activities one_row_laws (21 * day) (22 * day) "e1" "ann" "bob"
      no_values no_values filter_change completes
