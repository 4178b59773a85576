-- ===== src/Maintenance/DueCheck/Tests.antt =====
-- Ticks over a repository that holds one execution, and the theorem at those ticks.
use zensor_server.Prelude.{
  ℕ, ◌*◌, ◌≤◌, ◌≡◌, refl, String, true, inl, inr, Bool-cases, List, [], ◌∷◌, ℤ, pos, int_eq,
  string_eq, Time, day, ◌==◌, ==_iff, ==_refl, subst, All, contains, if◌then◌else◌, Result, ok, err,
  sentinel, execution_not_found, arith,
}
use zensor_server.Maintenance.Execution.{
  Execution, new_execution, has_notification_day_sent, mark_notification_day_sent,
  calculate_overdue_days,
}
use zensor_server.Maintenance.Activity.{new_activity}
use zensor_server.Maintenance.Ports.{ExecutionRepository, Pending}
use zensor_server.Maintenance.ExecutionWorker.{World, execution_ready_for_notification}
use zensor_server.Maintenance.DueCheck.{
  NotificationLaws, Stores, HasDistinctIds, ticks, check_and_notify, check_ready_for_notification,
  check_overdue_executions, mark_all_ready, mark_all_overdue, mark_ready, mark_overdue,
}
use zensor_server.Maintenance.DueCheck.Recorded.{announced}
use zensor_server.Maintenance.DueCheck.Once.{ready_announced_once}

abbrev filter_change : Execution ℕ
filter_change = record (new_execution "e1" 5) { activity_id = "a1"; scheduled_date = 20 * day }

abbrev Row : Type 0
Row = Execution ℕ

abbrev listed : Row → List (Pending ℕ)
listed x = (x, new_activity "a1" 1) ∷ []

-- An update of another execution finds no row.
abbrev store_row : Row → Row → Result (Unit {0}) × Row
store_row x s = if x.id == s.id then (ok tt, x) else (err (sentinel execution_not_found), s)

abbrev one_row : ExecutionRepository ℕ Row
one_row = record {
  create = λ x s. (err (sentinel execution_not_found), s);
  get_by_id = λ id s. if s.id == id then ok s else err (sentinel execution_not_found);
  find_by_activity_and_scheduled_date = λ a d s. err (sentinel execution_not_found);
  update = store_row;
  mark_completed = λ id by values s. (err (sentinel execution_not_found), s);
  find_pending_executions_ready_for_notification = λ now s. ok (listed s);
  find_overdue_executions = λ s. ok (listed s);
}

abbrev sent_days : String → Row → List ℤ
sent_days id s = if s.id == id then s.notification_days_sent else []

store_row-Stores : (x : Row) (s : Row) → Stores sent_days x s (store_row x s)
store_row-Stores x s = elim (Bool-cases (x.id == s.id)) [
  | inl same ↦ rw same (λ id. ground (arith, (==_iff x.id s.id).0 same))
  | inr other ↦ rw other (λ id. refl)
]

listed-current :
    (s : Row) {found : List (Pending ℕ)}
    → ok (listed s) ≡ ok found
    → All (λ p. p.0.notification_days_sent ≡ sent_days p.0.id s) found × HasDistinctIds found
listed-current s {found} h =
    let e : listed s ≡ found = cc in
    subst (λ xs. All (λ p. p.0.notification_days_sent ≡ sent_days p.0.id s) xs × HasDistinctIds xs)
      e ((ground (arith, ==_refl s.id), tt), (tt, tt))

one_row_laws : NotificationLaws one_row
one_row_laws = record {
  sent_days = sent_days;
  update_stores = store_row-Stores;
  ready_current = λ now s h. listed-current s h;
  overdue_current = λ s h. listed-current s h;
}

abbrev first_world : World Row
first_world = record { store = filter_change; published = [] }

abbrev times : List Time
times = (18 * day) ∷ (19 * day) ∷ (19 * day) ∷ []

-- The second tick of a day announces nothing.
three_ticks :
    (ticks one_row times first_world).published
    ≡ execution_ready_for_notification "e1" (pos 1)
      ∷ execution_ready_for_notification "e1" (pos 2)
      ∷ []
unfolding check_and_notify check_ready_for_notification check_overdue_executions mark_all_ready
    mark_all_overdue mark_ready mark_overdue has_notification_day_sent mark_notification_day_sent
    calculate_overdue_days
three_ticks = refl

ready_announced_once_example :
    let w' = ticks one_row times first_world in
    (announced "e1" (pos 1) w'.published ≤ 1)
    × (announced "e1" (pos 1) w'.published ≡ 1
        → contains (one_row_laws.sent_days "e1" w'.store) (pos 1) ≡ true)
ready_announced_once_example =
    ready_announced_once one_row one_row_laws times first_world "e1" (pos 1) refl
