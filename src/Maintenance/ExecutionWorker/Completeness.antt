-- ===== src/Maintenance/ExecutionWorker/Completeness.antt =====
-- The executions that processing an activity provides, when nothing fails.
use zensor_server.Prelude.{
  ℕ, zero, suc, ◌+◌, ◌≤◌, ◌<◌, ◌≡◌, refl, ◌≢◌, inl, inr, String, Dict, true, [], Option, some, Time,
  ==_iff, ==_refl, string_eq, nat_eq, subst, ok, err, Err, is_error, is_ok, Result-cases,
  execution_not_found, arith,
}
use zensor_server.Maintenance.Schedule.Occurrences.{
  IsValid, IsFirstAfter, occurrence, next_first, step-IsFirstAfter,
}
use zensor_server.Maintenance.Activity.{Activity, default_values}
use zensor_server.Maintenance.Execution.{Execution, new_execution, build}
use zensor_server.Maintenance.ExecutionService.{create_execution}
use zensor_server.Maintenance.Ports.{ScheduleLaws}
use zensor_server.Maintenance.ExecutionWorker.{
  Worker, World, build_at, create_at, process_date, process_dates, process_activity,
}
use zensor_server.Maintenance.ExecutionWorker.Ticks.{announce-store}
use zensor_server.Maintenance.ExecutionWorker.Scheduling.{Grew, Adds, process_dates-Adds}

-- Nothing fails for this activity: its tenant and the activity itself are found, a lookup fails
-- only for want of a row, and every insertion succeeds.
pub record IsHealthy {V S : Type 0} (k : Worker V S) (a : Activity V) : Type 0 where
  pub tenant_known : (s : S) → is_ok (k.tenants.get_tenant a.tenant_id s) ≡ true
  pub activity_known : (s : S) → is_ok (k.activities.get_by_id a.id s) ≡ true
  pub lookup_answers :
      (d : Time) (s : S) {e : Err}
      → k.executions.find_by_activity_and_scheduled_date a.id d s ≡ err e
      → is_error e execution_not_found ≡ true
  pub create_works : (x : Execution V) (s : S) → (k.executions.create x s).0 ≡ ok tt

module _ {V S : Type 0} (k : Worker V S) (laws : ScheduleLaws k.executions k.tenants)
    (a : Activity V) (healthy : IsHealthy k a) (named : a.id ≢ "") where
  abbrev planned : Time → Time → S → Execution V
  planned now date s =
      with_values (default_values a.fields []) (new_execution (k.generate_uuid s) now)
    where
      with_values : Dict String V → Execution V → Execution V
      with_values values x = record x {
        activity_id = a.id;
        scheduled_date = date;
        field_values = values;
      }

  build_at-ok :
      (now date : Time) (s : S) → 0 < date → build_at k now a date s ≡ ok (planned now date s)
  unfolding build_at build
  build_at-ok now date s h = ground (arith, ==_iff a.id "", named)

  create_at-ok :
      (now date : Time) (s : S)
      → 0 < date
      → let (result, s') = create_at k now a date s in
        (result ≡ ok tt) × (laws.rows_at a.id date s' ≡ suc (laws.rows_at a.id date s))
  unfolding create_at create_execution
  create_at-ok now date s h =
      let x = planned now date s in
      elim (Result-cases (k.activities.get_by_id a.id s)) [
        | inl (_, known) ↦
            rw (build_at-ok now date s h, create_at)
              (rw (known, create_execution)
                (ground (
                  arith,
                  healthy.create_works x s,
                  laws.create_ok x s a.id date (healthy.create_works x s),
                  ==_refl a.id,
                  ==_refl date,
                )))
        | inr (_, unknown) ↦ ground (arith, unknown, healthy.activity_known s)
      ]

  -- After a round there is an execution at its date.
  process_date-present :
      (now date : Time) (w : World S)
      → 0 < date
      → 0 < laws.rows_at a.id date (process_date k now a date w).store
  unfolding process_date
  process_date-present now date w h =
      elim (Result-cases (k.executions.find_by_activity_and_scheduled_date a.id date w.store)) [
        | inl (_, e) ↦ rw (e, process_date) (laws.find_present a.id date w.store e)
        | inr (_, e) ↦
            rw (e, healthy.lookup_answers date w.store e, process_date)
              (rw (announce-store k a date (create_at k now a date w.store) w)
                (omega (arith, create_at-ok now date w.store h)))
      ]

  Grew-pos : (n m : ℕ) → Grew n m → 0 < n → 0 < m
  Grew-pos n m g h = omega arith

  Adds-pos :
      (d : Time) (w w' : World S) (o : Option (World S))
      → o ≡ some w'
      → Adds k laws w.store o
      → 0 < laws.rows_at a.id d w.store
      → 0 < laws.rows_at a.id d w'.store
  Adds-pos d w w' o e added h =
      Grew-pos (laws.rows_at a.id d w.store) (laws.rows_at a.id d w'.store)
        (subst (λ x. Adds k laws w.store x) e added a.id d) h

module _ {V S : Type 0} (k : Worker V S) (laws : ScheduleLaws k.executions k.tenants)
    (a : Activity V) (healthy : IsHealthy k a) (named : a.id ≢ "")
    (valid : IsValid k.calendar a.schedule) where
  abbrev date_at : ℕ → Time
  date_at j = occurrence k.calendar a.schedule j

  -- The dates that a run of the loop has filled.
  abbrev Filled : ℕ → ℕ → World S → Type 0
  Filled rounds j w = (i : ℕ) → i < rounds → 0 < laws.rows_at a.id (date_at (j + i)) w.store

  Filled-suc :
      (rounds j : ℕ) (w : World S)
      → 0 < laws.rows_at a.id (date_at j) w.store
      → Filled rounds (suc j) w
      → Filled (suc rounds) j w
  Filled-suc rounds j w h filled zero lt =
      subst (λ x. 0 < laws.rows_at a.id (date_at x) w.store) (omega arith) h
  Filled-suc rounds j w h filled (suc i) lt =
      subst (λ x. 0 < laws.rows_at a.id (date_at x) w.store) (omega arith) (filled i (omega arith))

  process_dates-Filled :
      (rounds j : ℕ) (now last : Time) (w : World S)
      → IsFirstAfter k.calendar a.schedule last j
      → last ≤ k.calendar.horizon
      → ((i : ℕ) → i < rounds → date_at (j + i) ≤ k.calendar.horizon)
      → (w' : World S) × (process_dates k rounds now a last w ≡ some w') × Filled rounds j w'
  unfolding process_dates
  process_dates-Filled zero j now last w first h fits = (w, refl, λ i lt. absurd (omega arith))
  process_dates-Filled (suc rounds) j now last w first h fits =
      let date = date_at j in
      let v = process_date k now a date w in
      let here : date ≤ k.calendar.horizon =
        subst (λ x. date_at x ≤ k.calendar.horizon) (omega arith) (fits 0 (omega arith)) in
      let (w', run, filled) =
        process_dates-Filled rounds (suc j) now date v
          (step-IsFirstAfter k.calendar a.schedule valid last j first here) here
          (λ i lt.
            subst (λ x. date_at x ≤ k.calendar.horizon) (omega arith)
              (fits (suc i) (omega arith))) in
      let present : 0 < laws.rows_at a.id date v.store =
        process_date-present k laws a healthy named now date w (omega (arith, first.later)) in
      (
        w',
        rw (next_first k.calendar a.schedule valid last j first h, process_dates) run,
        Filled-suc rounds j w'
            (Adds-pos k laws a healthy named date v w' (process_dates k rounds now a date v) run
              (process_dates-Adds k laws rounds now a date v) present)
            filled,
      )

  -- When nothing fails, the tick for an activity with a valid schedule ends, and afterwards there
  -- is an execution at each of the three occurrences that follow the time of the tick.
  pub process_activity-Filled :
      (j : ℕ) (now : Time) (w : World S)
      → IsFirstAfter k.calendar a.schedule now j
      → now ≤ k.calendar.horizon
      → ((i : ℕ) → i < 3 → date_at (j + i) ≤ k.calendar.horizon)
      → (w' : World S) × (process_activity k now a w ≡ some w')
        × ((i : ℕ) → i < 3 → 0 < laws.rows_at a.id (date_at (j + i)) w'.store)
  unfolding process_activity
  process_activity-Filled j now w first h fits =
      elim (Result-cases (k.tenants.get_tenant a.tenant_id w.store)) [
        | inl (_, known) ↦
            let (w', run, filled) =
              process_dates-Filled 3 j now now
                (record w { store = k.tenants.get_or_create_configuration a.tenant_id w.store })
                first h fits in
            (w', rw (known, process_activity) run, filled)
        | inr (_, unknown) ↦ absurd (ground (arith, unknown, healthy.tenant_known w.store))
      ]
