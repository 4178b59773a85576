-- ===== src/Maintenance/DueCheck/Once.antt =====
-- How often the notification days of an execution are announced, over any number of ticks.
use zensor_server.Prelude.{
  ◌≤◌, ◌≡◌, inl, inr, true, String, List, [], ◌∷◌, ℤ, int_eq, string_eq, Time, All, contains,
  Result-cases, arith,
}
use zensor_server.Maintenance.Ports.{ExecutionRepository, Pending}
use zensor_server.Maintenance.ExecutionWorker.{World}
use zensor_server.Maintenance.DueCheck.{
  NotificationLaws, HasDistinctIds, mark_ready, mark_all_ready, check_ready_for_notification,
  mark_overdue, mark_all_overdue, check_overdue_executions, check_and_notify, ticks,
}
use zensor_server.Maintenance.DueCheck.Recorded.{
  announced, Recorded, Current, Current-keep, mark_ready-Keeps, mark_overdue-Keeps,
}

module _ {V S : Type 0} (r : ExecutionRepository V S) (laws : NotificationLaws r) where
  mark_all_ready-Recorded :
      (now : Time) (found : List (Pending V)) (w : World S)
      → Recorded r laws w
      → All (Current r laws w.store) found
      → HasDistinctIds found
      → Recorded r laws (mark_all_ready r now found w)
  unfolding mark_all_ready
  mark_all_ready-Recorded now [] w h current distinct = h
  mark_all_ready-Recorded now (p ∷ ps) w h current distinct =
      let (h', keep) = mark_ready-Keeps r laws now p w h current.0 in
      mark_all_ready-Recorded now ps (mark_ready r now p w) h'
        (Current-keep r laws p ps w.store (mark_ready r now p w).store keep distinct.0 current.1)
        distinct.1

  mark_all_overdue-Recorded :
      (now : Time) (found : List (Pending V)) (w : World S)
      → Recorded r laws w
      → All (Current r laws w.store) found
      → HasDistinctIds found
      → Recorded r laws (mark_all_overdue r now found w)
  unfolding mark_all_overdue
  mark_all_overdue-Recorded now [] w h current distinct = h
  mark_all_overdue-Recorded now (p ∷ ps) w h current distinct =
      let (h', keep) = mark_overdue-Keeps r laws now p w h current.0 in
      mark_all_overdue-Recorded now ps (mark_overdue r now p w) h'
        (Current-keep r laws p ps w.store (mark_overdue r now p w).store keep distinct.0 current.1)
        distinct.1

  check_ready-Recorded :
      (now : Time) (w : World S)
      → Recorded r laws w
      → Recorded r laws (check_ready_for_notification r now w)
  unfolding check_ready_for_notification
  check_ready-Recorded now w h =
      elim (Result-cases (r.find_pending_executions_ready_for_notification now w.store)) [
        | inr (_, e) ↦ rw (e, check_ready_for_notification) h
        | inl (found, e) ↦
            let (current, distinct) = laws.ready_current now w.store e in
            rw (e, check_ready_for_notification)
              (mark_all_ready-Recorded now found w h current distinct)
      ]

  check_overdue-Recorded :
      (now : Time) (w : World S)
      → Recorded r laws w
      → Recorded r laws (check_overdue_executions r now w)
  unfolding check_overdue_executions
  check_overdue-Recorded now w h = elim (Result-cases (r.find_overdue_executions w.store)) [
    | inr (_, e) ↦ rw (e, check_overdue_executions) h
    | inl (found, e) ↦
        let (current, distinct) = laws.overdue_current w.store e in
        rw (e, check_overdue_executions) (mark_all_overdue-Recorded now found w h current distinct)
  ]

  check_and_notify-Recorded :
      (now : Time) (w : World S) → Recorded r laws w → Recorded r laws (check_and_notify r now w)
  unfolding check_and_notify
  check_and_notify-Recorded now w h = check_overdue-Recorded now _ (check_ready-Recorded now w h)

  ticks-Recorded :
      (ts : List Time) (w : World S) → Recorded r laws w → Recorded r laws (ticks r ts w)
  ticks-Recorded [] w h = h
  ticks-Recorded (t ∷ ts) w h =
      ticks-Recorded ts (check_and_notify r t w) (check_and_notify-Recorded t w h)

  -- From a world in which nothing has been announced, any number of ticks announces each execution
  -- at most once for each number of days before its date, failed updates and repeated ticks
  -- included, and what was announced is stored as sent.
  pub ready_announced_once :
      (ts : List Time) (w : World S) (id : String) (d : ℤ)
      → w.published ≡ []
      → let w' = ticks r ts w in
        (announced id d w'.published ≤ 1)
        × (announced id d w'.published ≡ 1 → contains (laws.sent_days id w'.store) d ≡ true)
  ready_announced_once ts w id d fresh =
      let h = ticks-Recorded ts w (λ i n. rw fresh (omega arith)) id d in
      (ground (arith, h), λ one. ground (arith, h, one))
