-- ===== src/Maintenance/Execution/Laws.antt =====
-- What the methods of `Execution` promise.
use zensor_server.Prelude.{
  suc, ◌+◌, ◌-◌, ◌*◌, ◌≤◌, ◌<◌, ◌≡◌, refl, ◌≢◌, String, true, false, ◌||◌, Bool-cases, inl, inr,
  List, [], ◌∷◌, ◌++◌, ℤ, int_eq, int_max, string_eq, Time, day, ◌==◌, ==_iff, count, contains,
  Dict, lookup, lookup-copy_into, or_else, if◌then◌else◌, Result, ok, run_actions, Result-cases,
  arith,
}
use zensor_server.Maintenance.Execution.{
  Execution, has_notification_day_sent, mark_notification_day_sent, mark_completed, is_completed,
  calculate_overdue_days, new_execution, build, is_overdue, check_execution,
}

contains-append :
    (xs : List ℤ) (d x : ℤ) → contains (xs ++ (d ∷ [])) x ≡ ((d == x) || contains xs x)
contains-append [] d x = ground arith
contains-append (y ∷ xs) d x = ground (arith, contains-append xs d x)

count-append :
    (xs : List ℤ) (d x : ℤ) → count x (xs ++ (d ∷ [])) ≡ count x xs + (if d == x then 1 else 0)
count-append [] d x = ground arith
count-append (y ∷ xs) d x = ground (arith, count-append xs d x)

count_of_absent : (xs : List ℤ) (x : ℤ) → contains xs x ≡ false → count x xs ≡ 0
count_of_absent [] x h = refl
count_of_absent (y ∷ xs) x h = ground (arith, count_of_absent xs x)

module _ {V : Type 0} where
  -- Marking a day records that day and forgets none: afterwards a day counts as sent exactly if
  -- it is the marked day or was sent before.
  pub has_sent-mark :
      (now : Time) (e : Execution V) (d x : ℤ)
      → has_notification_day_sent (mark_notification_day_sent now e d) x
        ≡ ((d == x) || has_notification_day_sent e x)
  unfolding mark_notification_day_sent
  has_sent-mark now e d x = elim (Bool-cases (contains e.notification_days_sent d)) [
    | inl old ↦ ground (arith, old, ==_iff d x)
    | inr new ↦ rw new (contains-append e.notification_days_sent d x)
  ]

  -- No day is recorded twice.
  abbrev pub IsDistinct : Execution V → Type 0
  IsDistinct e = (x : ℤ) → count x e.notification_days_sent ≤ 1

  -- The recorded days stay distinct when a day is marked, also when it was marked before.
  pub mark-IsDistinct :
      (now : Time) (e : Execution V) (d : ℤ)
      → IsDistinct e
      → IsDistinct (mark_notification_day_sent now e d)
  unfolding mark_notification_day_sent
  mark-IsDistinct now e d h x = elim (Bool-cases (contains e.notification_days_sent d)) [
    | inl old ↦ rw old (h x)
    | inr new ↦ rw new (
        ground (
          arith,
          count-append e.notification_days_sent d x,
          count_of_absent e.notification_days_sent d new,
          ==_iff d x,
          h x,
        ))
  ]

  -- Completion keeps every captured value that is not given anew, takes over every given value,
  -- and leaves the execution completed and not overdue at any later time.
  pub mark_completed_lem :
      (now later : Time) (by k : String) (values : Dict String V) (e : Execution V)
      → let e' = mark_completed now by values e in
        (lookup k e'.field_values ≡ or_else (lookup k values) (lookup k e.field_values))
        × (is_completed e' ≡ true)
        × (is_overdue later e' ≡ false)
        × (calculate_overdue_days e' later ≡ 0)
  unfolding mark_completed is_overdue calculate_overdue_days
  mark_completed_lem now later by k values e =
      (lookup-copy_into k values e.field_values, refl, refl, refl)

  -- The overdue days of an open execution are the whole days since its date: 0 up to the date,
  -- and afterwards the number of full days that have passed (within the range of a duration).
  pub calculate_overdue_days_bounds :
      (e : Execution V) (current : Time)
      → is_completed e ≡ false
      → current - e.scheduled_date ≤ int_max
      → let n = calculate_overdue_days e current in
        (n * day ≤ current - e.scheduled_date) × (current - e.scheduled_date < suc n * day)
  unfolding calculate_overdue_days
  calculate_overdue_days_bounds e current open_ fits = ground arith

  -- The count never falls as time passes.
  pub calculate_overdue_days_mono :
      (e : Execution V) (t u : Time)
      → t ≤ u
      → calculate_overdue_days e t ≤ calculate_overdue_days e u
  unfolding calculate_overdue_days
  calculate_overdue_days_mono e t u h = ground arith

  check_execution_sound :
      (x : Execution V) {e : Execution V}
      → check_execution x ≡ ok e
      → (e.activity_id ≢ "") × (e.scheduled_date ≢ 0)
  check_execution_sound x h = ground (arith, ==_iff x.activity_id "")

  -- Whatever handlers were collected, an execution that is built has an activity and a date.
  pub build_sound :
      (uuid : String) (now : Time) (actions : List (Execution V → Result (Execution V)))
      {e : Execution V}
      → build uuid now actions ≡ ok e
      → (e.activity_id ≢ "") × (e.scheduled_date ≢ 0)
  unfolding build
  build_sound uuid now actions h =
      elim (Result-cases (run_actions actions (new_execution uuid now))) [
        | inl (x, ran) ↦ check_execution_sound x (rw (ran, build) at h)
        | inr (x, failed) ↦ ground (arith, failed, h)
      ]
