-- ===== src/Maintenance/ExecutionWorker/Kept.antt =====
-- The executions that are stored stay as they are through a scheduling tick.
use zensor_server.Prelude.{
  ◌≡◌, inl, inr, String, Bool-cases, some, Time, Result-cases, is_error, execution_not_found,
}
use zensor_server.Maintenance.Activity.{Activity}
use zensor_server.Maintenance.Execution.{Execution}
use zensor_server.Maintenance.ExecutionService.{create_execution}
use zensor_server.Maintenance.Ports.{RowLaws}
use zensor_server.Maintenance.ExecutionWorker.{Worker, World, build_at, create_at, process_date}
use zensor_server.Maintenance.ExecutionWorker.Ticks.{announce-store, IsKept}

module _ {V S : Type 0} (k : Worker V S) (laws : RowLaws k.executions k.tenants) where
  -- Every row is there as it was.
  abbrev pub Keeps : S → S → Type 0
  Keeps s s' = (id : String) (x : Execution V) → laws.row id s ≡ some x → laws.row id s' ≡ some x

  create_execution-Keeps :
      (x : Execution V) (s : S) → Keeps s (create_execution k.executions k.activities x s).1
  unfolding create_execution
  create_execution-Keeps x s id y h = elim (Result-cases (k.activities.get_by_id x.activity_id s)) [
    | inl (_, e) ↦ rw (e, create_execution) (laws.create_keeps x s id h)
    | inr (_, e) ↦ rw (e, create_execution) h
  ]

  create_at-Keeps :
      (now : Time) (a : Activity V) (date : Time) (s : S) → Keeps s (create_at k now a date s).1
  unfolding create_at
  create_at-Keeps now a date s id y h = elim (Result-cases (build_at k now a date s)) [
    | inl (x, e) ↦ rw (e, create_at) (create_execution-Keeps x s id y h)
    | inr (_, e) ↦ rw (e, create_at) h
  ]

  process_date-Keeps :
      (now : Time) (a : Activity V) (date : Time) (w : World S)
      → Keeps w.store (process_date k now a date w).store
  unfolding process_date
  process_date-Keeps now a date w id y h =
      elim (Result-cases (k.executions.find_by_activity_and_scheduled_date a.id date w.store)) [
        | inl (_, e) ↦ rw (e, process_date) h
        | inr (x, e) ↦ elim (Bool-cases (is_error x execution_not_found)) [
          | inl absent ↦
              rw (e, absent, process_date)
                (rw (announce-store k a date (create_at k now a date w.store) w)
                  (create_at-Keeps now a date w.store id y h))
          | inr other ↦ rw (e, other, process_date) h
        ]
      ]

  pub Keeps-IsKept : IsKept k Keeps
  Keeps-IsKept = record {
    same = λ s id x h. h;
    trans = λ s t u p q id x h. q id x (p id x h);
    round = process_date-Keeps;
    configured = λ tenant s id x h. laws.configuration_keeps_row tenant s id h;
  }
