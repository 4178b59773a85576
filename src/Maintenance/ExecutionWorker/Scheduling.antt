-- ===== src/Maintenance/ExecutionWorker/Scheduling.antt =====
-- The rows that a scheduling tick adds.
use zensor_server.Prelude.{
  ℕ, suc, ◌≡◌, refl, ◌⊎◌, inl, inr, String, Bool-cases, Option, Time, ==_iff, string_eq, nat_eq,
  subst, ok, is_error, Result-cases, execution_not_found, arith,
}
use zensor_server.Maintenance.Activity.{Activity}
use zensor_server.Maintenance.Execution.{Execution, build}
use zensor_server.Maintenance.ExecutionService.{create_execution}
use zensor_server.Maintenance.Ports.{ScheduleLaws}
use zensor_server.Maintenance.ExecutionWorker.{
  Worker, World, build_at, create_at, process_date, process_dates, schedule_executions,
}
use zensor_server.Maintenance.ExecutionWorker.Ticks.{
  announce-store, IsKept, Leads, process_dates-Leads, schedule_executions-Leads,
}

-- A number of rows stays as it is, or goes from none to one.
abbrev pub Grew : ℕ → ℕ → Type 0
Grew n m = (m ≡ n) ⊎ ((n ≡ 0) × (m ≡ 1))

Grew-trans : (n m l : ℕ) → Grew n m → Grew m l → Grew n l
Grew-trans n m l p q = ground arith

module _ {V S : Type 0} (k : Worker V S) (laws : ScheduleLaws k.executions k.tenants) where
  -- Every place in the store has kept its rows, or has got its first one.
  abbrev pub Added : S → S → Type 0
  Added s s' = (x : String) (d : Time) → Grew (laws.rows_at x d s) (laws.rows_at x d s')

  Added-refl : (s : S) → Added s s
  Added-refl s x d = inl refl

  Added-trans : (s t u : S) → Added s t → Added t u → Added s u
  Added-trans s t u p q x d =
      Grew-trans (laws.rows_at x d s) (laws.rows_at x d t) (laws.rows_at x d u) (p x d) (q x d)

  -- What an insertion for `x` does to the rows at a place.
  AddsRow : Execution V → String → Time → S → S → Type 0
  AddsRow x p d s s' =
      (laws.rows_at p d s' ≡ laws.rows_at p d s)
      ⊎ ((x.activity_id ≡ p)
          × (x.scheduled_date ≡ d)
          × (laws.rows_at p d s' ≡ suc (laws.rows_at p d s)))

  create-AddsRow :
      (x : Execution V) (s : S) (p : String) (d : Time)
      → AddsRow x p d s (k.executions.create x s).1
  unfolding AddsRow
  create-AddsRow x s p d = elim (Result-cases (k.executions.create x s).0) [
    | inl (done, e) ↦
        ground (arith, laws.create_ok x s p d e, ==_iff x.activity_id p, ==_iff x.scheduled_date d)
    | inr (_, e) ↦ inl (laws.create_err x s p d e)
  ]

  create_execution-AddsRow :
      (x : Execution V) (s : S) (p : String) (d : Time)
      → AddsRow x p d s (create_execution k.executions k.activities x s).1
  unfolding create_execution AddsRow
  create_execution-AddsRow x s p d = elim (Result-cases (k.activities.get_by_id x.activity_id s)) [
    | inl (_, e) ↦ rw (e, create_execution) (unfold AddsRow in create-AddsRow x s p d)
    | inr (_, e) ↦ rw (e, create_execution) (inl refl)
  ]

  build_at-place :
      (now : Time) (a : Activity V) (date : Time) (s : S) {x : Execution V}
      → build_at k now a date s ≡ ok x
      → (x.activity_id ≡ a.id) × (x.scheduled_date ≡ date)
  unfolding build_at build
  build_at-place now a date s h = ground arith

  create_at_rows :
      (now : Time) (a : Activity V) (date : Time) (s : S) (p : String) (d : Time)
      → let s' = (create_at k now a date s).1 in
        (laws.rows_at p d s' ≡ laws.rows_at p d s)
        ⊎ ((a.id ≡ p) × (date ≡ d) × (laws.rows_at p d s' ≡ suc (laws.rows_at p d s)))
  unfolding create_at AddsRow
  create_at_rows now a date s p d = elim (Result-cases (build_at k now a date s)) [
    | inl (x, e) ↦
        rw (e, create_at)
          (ground (arith, create_execution-AddsRow x s p d, build_at-place now a date s e))
    | inr (_, e) ↦ rw (e, create_at) (inl refl)
  ]

  created_first :
      (now : Time) (a : Activity V) (date : Time) (s : S) (p : String) (d : Time)
      → laws.rows_at a.id date s ≡ 0
      → Grew (laws.rows_at p d s) (laws.rows_at p d (create_at k now a date s).1)
  created_first now a date s p d absent = elim (create_at_rows now a date s p d) [
    | inl same ↦ inl same
    | inr (ep, ed, more) ↦
        let none_here : laws.rows_at p d s ≡ 0 =
          subst (λ x. laws.rows_at x d s ≡ 0) ep
            (subst (λ t. laws.rows_at a.id t s ≡ 0) ed absent) in
        inr (none_here, omega arith)
  ]

  -- One round: a place without a row may get one, and only the place that was looked up.
  pub process_date-Added :
      (now : Time) (a : Activity V) (date : Time) (w : World S)
      → Added w.store (process_date k now a date w).store
  unfolding process_date
  process_date-Added now a date w p d =
      elim (Result-cases (k.executions.find_by_activity_and_scheduled_date a.id date w.store)) [
        | inl (_, e) ↦ rw (e, process_date) (inl refl)
        | inr (x, e) ↦ elim (Bool-cases (is_error x execution_not_found)) [
          | inl absent ↦
              rw (e, absent, process_date)
                (rw (announce-store k a date (create_at k now a date w.store) w) (
                  created_first now a date w.store p d
                    (laws.find_absent a.id date w.store e absent)))
          | inr other ↦ rw (e, other, process_date) (inl refl)
        ]
      ]

  pub Added-IsKept : IsKept k Added
  Added-IsKept = record {
    same = Added-refl;
    trans = Added-trans;
    round = process_date-Added;
    configured = λ tenant s x d. inl (laws.configuration_keeps tenant x d s);
  }

  -- The worlds that a tick may end in.
  abbrev pub Adds : S → Option (World S) → Type 0
  Adds = Leads k Added Added-IsKept

  pub process_dates-Adds :
      (rounds : ℕ) (now : Time) (a : Activity V) (last : Time) (w : World S)
      → Adds w.store (process_dates k rounds now a last w)
  process_dates-Adds = process_dates-Leads k Added Added-IsKept

  -- A scheduling tick, whatever fails in it, lowers the number of executions at no place, and creates one only
  -- for an activity and a date that had none; so no place with an execution ever gets a second one.
  pub schedule_executions-Adds :
      (now : Time) (w : World S) → Adds w.store (schedule_executions k now w)
  schedule_executions-Adds = schedule_executions-Leads k Added Added-IsKept
