-- ===== src/ControlPlane/ScheduledTaskWorker/Once.antt =====
-- When the worker creates a task from a scheduled task of an interval.
use zensor_server.Prelude.{
  ℕ, ◌+◌, pos, ◌≡◌, refl, inl, inr, String, Bool, true, false, not, ◌||◌, Bool-cases, if_cases,
  Option, some, List, Time, ltb, before, nat_eq, ◌==◌, string_eq, if◌then◌else◌, Result, ok, err,
  Outcome, returns, panics, wrap, sentinel, parse_execution_time, cron_schedule_required,
  no_valid_scheduling, arith,
}
use zensor_server.SharedKernel.ScheduledTask.{
  Zone, InitialDay, SchedulingType, cron, interval, unset, other, ScheduledTask,
  calculate_next_execution, next_execution, build,
}
use zensor_server.SharedKernel.ScheduledTask.Building.{Returns, calculate-Returns}
use zensor_server.ControlPlane.ScheduledTaskWorker.{
  Ports, is_due, interval_error, cron_next, or_utc, last_executed, next_run,
  should_execute_schedule, execute_if, evaluate_and_maybe_create_task,
  create_task_from_scheduled_task,
}

module _ {S : Type 0} (load_zone : String → Result Zone) (utc : Zone)
    (parse_cron : String → Result (Zone → Time → Time)) (p : Ports S) where
  -- The scheduled task that a run at `now` stores.
  abbrev pub executed : Time → ScheduledTask → ScheduledTask
  executed now st = record st { last_executed_at = some now; updated_at = now }

  due_run :
      (st : ScheduledTask) (now later last due : Time) (zone : Zone)
      → st.scheduling.type ≡ interval
      → calculate_next_execution (ok zone) (executed now st) ≡ returns (ok due)
      → next_run load_zone utc parse_cron p
          (executed now st)
          st.scheduling.type
          (ok zone)
          last
          later
        ≡ returns (ok (not (ltb later due)))
  due_run st now later last due zone q e = ground (arith, q, e)

  -- A scheduled task of an interval of days, with an initial day and a time of day that can be read, that was
  -- executed at an instant, in the zone of its tenant, where that many days after the midnight of the
  -- execution's day is an instant of the day that many days later: an active one is executed again exactly from
  -- that time of the later day on; before it, the worker does no more than ask for the zone.
  pub interval_decides :
      (st : ScheduledTask) (uuid : ℕ → String) (now later : Time) (zone : Zone)
      (initial : InitialDay) (days hour minute : ℕ) (text : String) (s : S)
      → st.is_active ≡ true
      → st.scheduling.type ≡ interval
      → st.scheduling.initial_day ≡ some initial
      → st.scheduling.day_interval ≡ some (pos days)
      → st.scheduling.execution_time ≡ some text
      → parse_execution_time text ≡ ok (hour, minute)
      → load_zone (p.timezone st.tenant_id s).0 ≡ ok zone
      → zone.day_of (zone.add_days (zone.instant (zone.day_of now) 0 0) (pos days))
        ≡ zone.day_of now + days
      → evaluate_and_maybe_create_task load_zone utc parse_cron p uuid later (executed now st) s ≡ (
          if ltb later (zone.instant (zone.day_of now + days) hour minute)
          then (returns (ok tt), (p.timezone st.tenant_id s).1)
          else (
            returns (ok tt),
            (create_task_from_scheduled_task load_zone utc parse_cron p uuid later
                (executed now st)
                (p.timezone st.tenant_id s).1).1,
          ))
  unfolding evaluate_and_maybe_create_task should_execute_schedule calculate_next_execution
      next_execution
  interval_decides st uuid now later zone initial days hour minute text s active q has_initial
        has_days has_time parsed loads midnights =
      let due = zone.instant (zone.day_of now + days) hour minute in
      let calculated : calculate_next_execution (ok zone) (executed now st) ≡ returns (ok due) =
        ground (arith, q, has_initial, has_days, has_time, parsed, midnights) in
      let run =
        due_run st now later (last_executed (executed now st) (some now)) due zone q calculated in
      elim (Bool-cases (ltb later due)) [
        | inl e ↦ ground (arith, active, loads, run, e)
        | inr e ↦ ground (arith, active, loads, run, e)
      ]

  is_due-Returns : (now : Time) (o : Outcome Time) → Returns o → Returns (is_due now o)
  is_due-Returns now (returns (ok next)) h = (ok (before next now || next == now), refl)
  is_due-Returns now (returns (err e)) h = (err e, refl)
  is_due-Returns now panics (r, h) = cc

  interval_error-Returns : (o : Outcome Time) → Returns o → Returns (interval_error o)
  interval_error-Returns (returns (ok next)) h = (ok next, refl)
  interval_error-Returns (returns (err e)) h =
      (err (wrap "calculating next interval execution" e), refl)
  interval_error-Returns panics (r, h) = cc

  cron-Returns :
      (zone : Zone) (last now : Time) (r : Result (Zone → Time → Time))
      → Returns (is_due now (cron_next zone last r))
  cron-Returns zone last now (ok next) =
      (ok (before (next zone last) now || next zone last == now), refl)
  cron-Returns zone last now (err e) = (err (wrap "parsing cron schedule" e), refl)

  next_run-Returns :
      (st : ScheduledTask) (t : SchedulingType) (zone : Result Zone) (last now : Time)
      → Returns (calculate_next_execution zone st)
      → Returns (next_run load_zone utc parse_cron p st t zone last now)
  next_run-Returns st interval zone last now h =
      is_due-Returns now (interval_error (calculate_next_execution zone st))
        (interval_error-Returns (calculate_next_execution zone st) h)
  next_run-Returns st cron zone last now h =
      if_cases Returns (st.schedule == "") (returns (err (sentinel cron_schedule_required)))
        (is_due now (cron_next (or_utc utc zone) last (parse_cron st.schedule)))
        (λ _. (err (sentinel cron_schedule_required), refl))
        (λ _. cron-Returns (or_utc utc zone) last now (parse_cron st.schedule))
  next_run-Returns st unset zone last now h =
      if_cases Returns (st.schedule == "") (returns (err (sentinel no_valid_scheduling)))
        (is_due now (cron_next (or_utc utc zone) last (parse_cron st.schedule)))
        (λ _. (err (sentinel no_valid_scheduling), refl))
        (λ _. cron-Returns (or_utc utc zone) last now (parse_cron st.schedule))
  next_run-Returns st (other _) zone last now h =
      if_cases Returns (st.schedule == "") (returns (err (sentinel no_valid_scheduling)))
        (is_due now (cron_next (or_utc utc zone) last (parse_cron st.schedule)))
        (λ _. (err (sentinel no_valid_scheduling), refl))
        (λ _. cron-Returns (or_utc utc zone) last now (parse_cron st.schedule))

  execute_if-Returns :
      (uuid : ℕ → String) (now : Time) (st : ScheduledTask) (o : Outcome Bool) (s : S)
      → Returns o
      → (execute_if load_zone utc parse_cron p uuid now st (o, s)).0 ≡ returns (ok tt)
  execute_if-Returns uuid now st panics s (r, h) = cc
  execute_if-Returns uuid now st (returns (err e)) s h = refl
  execute_if-Returns uuid now st (returns (ok false)) s h = refl
  execute_if-Returns uuid now st (returns (ok true)) s h = refl

  -- The worker gets through every scheduled task that `Build` has accepted, whatever its type, its
  -- last execution, the zone of its tenant and the store: no evaluation of it panics.
  pub built_task_never_panics :
      (uuid : String) (now later : Time) (actions : List (ScheduledTask → Result ScheduledTask))
      (last : Option Time) (ids : ℕ → String) (at : Time) (s : S) {st : ScheduledTask}
      → build uuid now later actions ≡ ok st
      → (evaluate_and_maybe_create_task load_zone utc parse_cron p ids at
          (record st { last_executed_at = last })
          s).0
        ≡ returns (ok tt)
  unfolding evaluate_and_maybe_create_task should_execute_schedule
  built_task_never_panics uuid now later actions last ids at s {st} h =
      let st' : ScheduledTask = record st { last_executed_at = last } in
      let (name, s') = p.timezone st.tenant_id s in
      let run =
        next_run load_zone utc parse_cron p st' st.scheduling.type (load_zone name)
          (last_executed st' last) at in
      if_cases (λ (o : Outcome (Unit {0}) × S). o.0 ≡ returns (ok tt)) (not st.is_active)
        (returns (ok tt), s) (execute_if load_zone utc parse_cron p ids at st' (run, s'))
        (λ _. refl)
        (λ _. execute_if-Returns ids at st' run s' (
          next_run-Returns st' st.scheduling.type (load_zone name) (last_executed st' last) at
            (calculate-Returns uuid now later actions last (load_zone name) h)))
