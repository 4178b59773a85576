-- ===== src/Maintenance/ExecutionWorker/Termination.antt =====
-- When a scheduling tick ends, and what it leaves behind.
use zensor_server.Prelude.{
  ℕ, zero, suc, ◌+◌, ◌≤◌, ◌<◌, ◌≡◌, refl, inl, inr, List, [], ◌∷◌, Option, some, Time, All, subst,
  ok, wrap, Result-cases, arith,
}
use zensor_server.Maintenance.Schedule.Occurrences.{
  IsValid, IsFirstAfter, occurrence, next-IsFirstAfter, next_first, step-IsFirstAfter,
}
use zensor_server.Maintenance.Activity.{Activity}
use zensor_server.Maintenance.Ports.{ScheduleLaws, RowLaws}
use zensor_server.Maintenance.ExecutionWorker.{
  Worker, World, publish, execution_creation_failed, process_date, process_dates, process_activity,
  process_activities, schedule_executions,
}
use zensor_server.Maintenance.ExecutionWorker.Ticks.{Leads, schedule_executions-Leads}
use zensor_server.Maintenance.ExecutionWorker.Kept.{Keeps, Keeps-IsKept}
use zensor_server.Maintenance.ExecutionWorker.Scheduling.{Added, Adds, schedule_executions-Adds}

module _ {V S : Type 0} (k : Worker V S) where
  -- The activity has a valid schedule, and the dates that a tick goes through are within the
  -- bounds of the calendar.
  pub record IsPlannable (now : Time) (a : Activity V) : Type 0 where
    pub valid : IsValid k.calendar a.schedule
    pub dates_fit :
        (j i : ℕ)
        → IsFirstAfter k.calendar a.schedule now j
        → i < 3
        → occurrence k.calendar a.schedule (j + i) ≤ k.calendar.horizon

  abbrev Ends : Option (World S) → Type 0
  Ends o = (w' : World S) × (o ≡ some w')

  process_dates-Ends :
      (a : Activity V) (rounds j : ℕ) (now last : Time) (w : World S)
      → IsValid k.calendar a.schedule
      → IsFirstAfter k.calendar a.schedule last j
      → last ≤ k.calendar.horizon
      → ((i : ℕ) → i < rounds → occurrence k.calendar a.schedule (j + i) ≤ k.calendar.horizon)
      → Ends (process_dates k rounds now a last w)
  unfolding process_dates
  process_dates-Ends a zero j now last w valid first h fits = (w, refl)
  process_dates-Ends a (suc rounds) j now last w valid first h fits =
      let date = occurrence k.calendar a.schedule j in
      let at_ : ℕ → Type 0 = λ x. occurrence k.calendar a.schedule x ≤ k.calendar.horizon in
      let here : date ≤ k.calendar.horizon = subst at_ (omega arith) (fits 0 (omega arith)) in
      let (w', run) =
        process_dates-Ends a rounds (suc j) now date (process_date k now a date w) valid
          (step-IsFirstAfter k.calendar a.schedule valid last j first here) here
          (λ i lt. subst at_ (omega arith) (fits (suc i) (omega arith))) in
      (w', rw (next_first k.calendar a.schedule valid last j first h, process_dates) run)

  process_activity-Ends :
      (now : Time) (a : Activity V) (w : World S)
      → now ≤ k.calendar.horizon
      → IsPlannable now a
      → Ends (process_activity k now a w)
  unfolding process_activity
  process_activity-Ends now a w h plan =
      elim (Result-cases (k.tenants.get_tenant a.tenant_id w.store)) [
        | inr (x, e) ↦ (
          publish (execution_creation_failed a.id (wrap "getting tenant" x)) w,
          rw (e, process_activity),
        )
        | inl (_, e) ↦
            let (j, _, first) = next-IsFirstAfter k.calendar a.schedule plan.valid now h in
            let (w', run) =
              process_dates-Ends a 3 j now now
                (record w { store = k.tenants.get_or_create_configuration a.tenant_id w.store })
                plan.valid first h (λ i lt. plan.dates_fit j i first lt) in
            (w', rw (e, process_activity) run)
      ]

  process_activities-Ends :
      (now : Time) (found : List (Activity V)) (w : World S)
      → now ≤ k.calendar.horizon
      → All (IsPlannable now) found
      → Ends (process_activities k now found w)
  unfolding process_activities
  process_activities-Ends now [] w h plans = (w, refl)
  process_activities-Ends now (a ∷ rest) w h plans =
      let (w', run) = process_activity-Ends now a w h plans.0 in
      let (w'', run') = process_activities-Ends now rest w' h plans.1 in
      (w'', rw (run, process_activities) run')

  -- A scheduling tick ends, whatever fails in it, when now lies within the bounds of the calendar,
  -- the schedules of the activities that it finds are valid, and so do the next three dates of each. Afterwards
  -- every stored execution is as before; the number of executions at an activity and a date
  -- is as before too, or has gone from none to one.
  pub schedule_executions_total :
      (laws : ScheduleLaws k.executions k.tenants) (rows : RowLaws k.executions k.tenants)
      (now : Time) (w : World S)
      → now ≤ k.calendar.horizon
      → ((found : List (Activity V))
          → k.activities.find_all_active w.store ≡ ok found
          → All (IsPlannable now) found)
      → (w' : World S) × (schedule_executions k now w ≡ some w')
        × Added k laws w.store w'.store
        × Keeps k rows w.store w'.store
  unfolding schedule_executions
  schedule_executions_total laws rows now w h plans =
      let (w', run) : Ends (schedule_executions k now w) =
        elim (Result-cases (k.activities.find_all_active w.store)) [
          | inr (_, e) ↦ (w, rw (e, schedule_executions))
          | inl (found, e) ↦
              let (w', run) = process_activities-Ends now found w h (plans found e) in
              (w', rw (e, schedule_executions) run)
        ] in
      (
        w',
        run,
        subst (λ o. Adds k laws w.store o) run (schedule_executions-Adds k laws now w),
        subst (λ o. Leads k (Keeps k rows) (Keeps-IsKept k rows) w.store o) run
            (schedule_executions-Leads k (Keeps k rows) (Keeps-IsKept k rows) now w),
      )
