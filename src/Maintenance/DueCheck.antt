-- ===== src/Maintenance/DueCheck.antt =====
-- The second tick of internal/maintenance/usecases/execution_worker.go, which announces executions
-- on their notification days and those whose overdue days have grown.
pub mod Once
pub mod Recorded
mod Tests
use zensor_server.Prelude.{
  ℕ, Bool, true, false, ◌&&◌, ◌≡◌, String, List, [], ◌∷◌, ℤ, pos, int_eq, string_eq, Time,
  whole_days, ltb_ℤ, ◌==◌, All, if◌then◌else◌, Result, ok, err,
}
use zensor_server.Maintenance.Execution.{
  Execution, has_notification_day_sent, mark_notification_day_sent, calculate_overdue_days,
}
use zensor_server.Maintenance.Ports.{ExecutionRepository, Pending}
use zensor_server.Maintenance.ExecutionWorker.{
  Event, execution_ready_for_notification, execution_overdue, World, publish,
}

-- The event is published only if the update went through.
abbrev pub publish_if_ok : {S : Type 0} → Event → Result (Unit {0}) × S → World S → World S
publish_if_ok event (ok _, s) w = publish event (record w { store = s })
publish_if_ok event (err _, s) w = record w { store = s }

module _ {V S : Type 0} (r : ExecutionRepository V S) where
  -- One round of the loop of `checkReadyForNotification`.
  unfoldable pub mark_ready : Time → Pending V → World S → World S
  mark_ready now (x, _) w =
      let days_before = whole_days x.scheduled_date now in
      if has_notification_day_sent x days_before
      then w
      else publish_if_ok (execution_ready_for_notification x.id days_before)
          (r.update (mark_notification_day_sent now x days_before) w.store) w

  unfoldable pub mark_all_ready : Time → List (Pending V) → World S → World S
  mark_all_ready now [] w = w
  mark_all_ready now (p ∷ ps) w = mark_all_ready now ps (mark_ready now p w)

  unfoldable pub check_ready_for_notification : Time → World S → World S
  check_ready_for_notification now w =
      elim (r.find_pending_executions_ready_for_notification now w.store) [
        | err _ ↦ w
        | ok found ↦ mark_all_ready now found w
      ]

  -- One round of the loop of `checkOverdueExecutions`.
  unfoldable pub mark_overdue : Time → Pending V → World S → World S
  mark_overdue now (x, _) w =
      let days = calculate_overdue_days x now in
      if ltb_ℤ x.overdue_days (pos days)
      then publish_if_ok (execution_overdue x.id days)
          (r.update (record x { overdue_days = pos days }) w.store) w
      else w

  unfoldable pub mark_all_overdue : Time → List (Pending V) → World S → World S
  mark_all_overdue now [] w = w
  mark_all_overdue now (p ∷ ps) w = mark_all_overdue now ps (mark_overdue now p w)

  unfoldable pub check_overdue_executions : Time → World S → World S
  check_overdue_executions now w = elim (r.find_overdue_executions w.store) [
    | err _ ↦ w
    | ok found ↦ mark_all_overdue now found w
  ]

  -- `runCheckAndNotifyExecutions`
  unfoldable pub check_and_notify : Time → World S → World S
  check_and_notify now w = check_overdue_executions now (check_ready_for_notification now w)

  -- The ticks at the given times, one after the other.
  abbrev pub ticks : List Time → World S → World S
  ticks [] w = w
  ticks (t ∷ ts) w = ticks ts (check_and_notify t w)

-- No two entries of a result are of one execution.
abbrev pub HasDistinctIds : {V : Type 0} → List (Pending V) → Type 0
HasDistinctIds [] = Unit
HasDistinctIds (p ∷ ps) = All (λ q. (p.0.id == q.0.id) ≡ false) ps × HasDistinctIds ps

-- What an update of `x` in the store `s` leaves behind, by how it ended.
abbrev pub Stores :
    {V S : Type 0} → (String → S → List ℤ) → Execution V → S → Result (Unit {0}) × S → Type 0
Stores sent_days x s (ok _, s') =
    (id : String)
    → sent_days id s' ≡ (if x.id == id then x.notification_days_sent else sent_days id s)
Stores sent_days x s (err _, s') = (id : String) → sent_days id s' ≡ sent_days id s

-- The stored notification days by execution: a query answers with the stored days and lists no
-- execution twice, a successful update stores the days of its argument, and a failed one nothing.
pub record NotificationLaws {V S : Type 0} (r : ExecutionRepository V S) : Type 0 where
  pub sent_days : String → S → List ℤ
  pub update_stores : (x : Execution V) (s : S) → Stores sent_days x s (r.update x s)
  pub ready_current :
      (now : Time) (s : S) {found : List (Pending V)}
      → r.find_pending_executions_ready_for_notification now s ≡ ok found
      → All (λ p. p.0.notification_days_sent ≡ sent_days p.0.id s) found × HasDistinctIds found
  pub overdue_current :
      (s : S) {found : List (Pending V)}
      → r.find_overdue_executions s ≡ ok found
      → All (λ p. p.0.notification_days_sent ≡ sent_days p.0.id s) found × HasDistinctIds found
