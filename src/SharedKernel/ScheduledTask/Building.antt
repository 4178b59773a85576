-- ===== src/SharedKernel/ScheduledTask/Building.antt =====
-- The scheduled tasks that `Build` lets through.
use zensor_server.Prelude.{
  ℕ, ℤ, pos, leb_ℤ, ◌≡◌, refl, subst, ap, ◌∙◌, inl, inr, String, ◌&&◌, if_cases, Option, none, some,
  List, [], ◌∷◌, Time, before, nat_eq, ◌==◌, string_eq, if◌then◌else◌, Result, Result-cases, ok,
  err, Outcome, returns, sentinel, wrap, run_actions, parse_execution_time, schedule_required,
  execution_time_required, day_interval_required, initial_day_in_past, tenant_required,
  device_required, interval_only, ◌⊎◌, arith,
}
use zensor_server.SharedKernel.Task.{CommandTemplate}
use zensor_server.SharedKernel.ScheduledTask.{
  Zone, SchedulingType, cron, interval, unset, other, is_unset, InitialDay, ScheduledTask,
  calculate_at, calculate_next_execution, check_future, check_time, check_days, check_interval,
  check_scheduling, default_scheduling, check_schedule, check_templates, check, new_task, build,
}

-- The fields that an interval needs are there, and its time of day can be read.
abbrev pub IsSchedulable : ScheduledTask → Type 0
IsSchedulable st =
    (initial : InitialDay) × (days : ℤ) × (text : String) × (day_time : ℕ × ℕ)
    × (st.scheduling.initial_day ≡ some initial)
    × (st.scheduling.day_interval ≡ some days)
    × (st.scheduling.execution_time ≡ some text)
    × (parse_execution_time text ≡ ok day_time)

-- A check lets through what it was given, if at all, and only with a property.
abbrev Passes : Type 0 → ScheduledTask → Result ScheduledTask → Type 0
Passes P st r = (st' : ScheduledTask) → r ≡ ok st' → (st ≡ st') × P

module _ (now : Time) (st : ScheduledTask) where
  check_future-Passes :
      (initial : InitialDay) (r : Result (ℕ × ℕ))
      → Passes ((day_time : ℕ × ℕ) × (r ≡ ok day_time)) st (check_future now st initial r)
  check_future-Passes initial (err e) = λ st' h. cc
  check_future-Passes initial (ok (hour, minute)) =
      if_cases (Passes ((day_time : ℕ × ℕ) × (ok (hour, minute) ≡ ok day_time)) st)
        (before (initial.zone.instant (initial.zone.day_of initial.at) hour minute) now)
        (err (sentinel initial_day_in_past)) (ok st) (λ _ st' h. cc)
        (λ _ st' h. (ground (arith, h), ((hour, minute), refl)))

  abbrev HasTime : Option String → Type 0
  HasTime time =
      (text : String) × (day_time : ℕ × ℕ) × (time ≡ some text)
      × (parse_execution_time text ≡ ok day_time)

  check_time-Passes :
      (initial : InitialDay) (time : Option String)
      → Passes (HasTime time) st (check_time now st initial time)
  check_time-Passes initial none = λ st' h. cc
  check_time-Passes initial (some text) =
      if_cases (Passes (HasTime (some text)) st) (text == "")
        (err (sentinel execution_time_required))
        (check_future now st initial (parse_execution_time text)) (λ _ st' h. cc)
        (λ _ st' h.
          let (same, (day_time, parsed)) =
            check_future-Passes initial (parse_execution_time text) st' h in
          (same, (text, day_time, refl, parsed)))

  abbrev HasDays : Option ℤ → Type 0
  HasDays days = (n : ℤ) × (days ≡ some n) × HasTime st.scheduling.execution_time

  check_days-Passes :
      (initial : InitialDay) (days : Option ℤ)
      → Passes (HasDays days) st (check_days now st initial days)
  check_days-Passes initial none = λ st' h. cc
  check_days-Passes initial (some n) =
      if_cases (Passes (HasDays (some n)) st) (leb_ℤ n (pos 0))
        (err (sentinel day_interval_required))
        (check_time now st initial st.scheduling.execution_time) (λ _ st' h. cc)
        (λ _ st' h.
          let (same, timed) = check_time-Passes initial st.scheduling.execution_time st' h in
          (same, (n, refl, timed)))

  check_interval-Passes :
      (initial : Option InitialDay)
      → st.scheduling.initial_day ≡ initial
      → Passes (IsSchedulable st) st (check_interval now st initial)
  check_interval-Passes none e = λ st' h. cc
  check_interval-Passes (some initial) e = λ st' h.
      let (same, (n, days, (text, day_time, time, parsed))) =
        check_days-Passes initial st.scheduling.day_interval st' h in
      (same, (initial, n, text, day_time, e, days, time, parsed))

  check_scheduling-Passes :
      (type : SchedulingType)
      → Passes (type ≡ interval → IsSchedulable st) st (check_scheduling now st type)
  check_scheduling-Passes interval = λ st' h.
      let (same, schedulable) = check_interval-Passes st.scheduling.initial_day refl st' h in
      (same, λ _. schedulable)
  check_scheduling-Passes cron = λ st' h. (ground (arith, h), λ q. cc)
  check_scheduling-Passes unset = λ st' h. (ground (arith, h), λ q. cc)
  check_scheduling-Passes (other _) = λ st' h. (ground (arith, h), λ q. cc)

abbrev Ready : Result ScheduledTask → Type 0
Ready r = (st : ScheduledTask) → r ≡ ok st → st.scheduling.type ≡ interval → IsSchedulable st

check_scheduling-Ready :
    (now : Time) (st : ScheduledTask) → Ready (check_scheduling now st st.scheduling.type)
check_scheduling-Ready now st st' h q =
    let (same, schedulable) = check_scheduling-Passes now st st.scheduling.type st' h in
    subst IsSchedulable same (schedulable (ap (λ x. x.scheduling.type) same ∙ q))

check_schedule-Ready : (now : Time) (st : ScheduledTask) → Ready (check_schedule now st)
check_schedule-Ready now st =
    let st' = default_scheduling st in
    if_cases Ready ((st.schedule == "") && is_unset st.scheduling.type)
      (err (sentinel schedule_required)) (check_scheduling now st' st'.scheduling.type)
      (λ _ x h. cc) (λ _. check_scheduling-Ready now st')

check_templates-Ready :
    (now : Time) (st : ScheduledTask) (templates : List CommandTemplate)
    → Ready (check_templates now st templates)
check_templates-Ready now st [] = λ x h. cc
check_templates-Ready now st (_ ∷ _) = check_schedule-Ready now st

check-Ready : (now : Time) (r : Result ScheduledTask) → Ready (check now r)
check-Ready now (err e) = λ x h. cc
check-Ready now (ok st) =
    if_cases Ready (st.tenant_id == "") (err (sentinel tenant_required))
      (if st.device_id == ""
        then err (sentinel device_required)
        else check_templates now st st.command_templates)
      (λ _ x h. cc)
      (λ _.
        if_cases Ready (st.device_id == "") (err (sentinel device_required))
          (check_templates now st st.command_templates) (λ _ x h. cc)
          (λ _. check_templates-Ready now st st.command_templates))

-- A scheduled task of an interval that `Build` accepts, whatever handlers were collected, can be
-- scheduled: `CalculateNextExecution` in a zone that was loaded neither panics nor fails, also once the task has
-- been executed.
pub build_schedulable :
    (uuid : String) (now later : Time) (actions : List (ScheduledTask → Result ScheduledTask))
    (last : Option Time) (zone : Zone) {st : ScheduledTask}
    → build uuid now later actions ≡ ok st
    → st.scheduling.type ≡ interval
    → (next : Time) × (calculate_next_execution (ok zone) (record st { last_executed_at = last })
        ≡ returns (ok next))
unfolding build calculate_next_execution
build_schedulable uuid now later actions last zone {st} h q =
    let (initial, days, text, day_time, some_initial, some_days, some_text, parsed) =
      check-Ready later (run_actions actions (new_task uuid now)) st h q in
    (
      calculate_at last zone day_time initial days,
      ground (arith, q, some_text, parsed, some_initial, some_days),
    )

pub type_cases :
    (t : SchedulingType)
    → (t ≡ interval) ⊎ (t ≡ cron) ⊎ (t ≡ unset) ⊎ ((name : String) × (t ≡ other name))
type_cases interval = inl refl
type_cases cron = inr (inl refl)
type_cases unset = inr (inr (inl refl))
type_cases (other name) = inr (inr (inr (name, refl)))

-- The outcome is a value or an error.
abbrev pub Returns : {A : Type 0} → Outcome A → Type 0
Returns {A} outcome = (r : Result A) × (outcome ≡ returns r)

-- Whatever the zone was loaded as, and whatever type the scheduling has.
pub calculate-Returns :
    (uuid : String) (now later : Time) (actions : List (ScheduledTask → Result ScheduledTask))
    (last : Option Time) (zone : Result Zone) {st : ScheduledTask}
    → build uuid now later actions ≡ ok st
    → Returns (calculate_next_execution zone (record st { last_executed_at = last }))
unfolding build calculate_next_execution
calculate-Returns uuid now later actions last zone {st} h = elim (type_cases st.scheduling.type) [
  | inl q ↦
      let (initial, days, text, day_time, some_initial, some_days, some_text, parsed) =
        check-Ready later (run_actions actions (new_task uuid now)) st h q in
      elim (Result-cases zone) [
        | inl (loaded, e) ↦
            let (next, found) = build_schedulable uuid now later actions last loaded h q in
            (
              ok next,
              ap (λ z. calculate_next_execution z (record st { last_executed_at = last })) e
                  ∙ found,
            )
        | inr (x, e) ↦ (err (wrap "loading timezone" x), ground (arith, q, some_text, e))
      ]
  | inr (inl q) ↦ (err (sentinel interval_only), ground (arith, q))
  | inr (inr (inl q)) ↦ (err (sentinel interval_only), ground (arith, q))
  | inr (inr (inr (name, q))) ↦ (err (sentinel interval_only), ground (arith, q))
]
