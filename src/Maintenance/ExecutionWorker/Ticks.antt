-- ===== src/Maintenance/ExecutionWorker/Ticks.antt =====
-- A scheduling tick moves the store along any preorder that its single rounds respect.
use zensor_server.Prelude.{
  ℕ, zero, suc, ◌≡◌, refl, Result, ok, err, inl, inr, String, Option, Option-cases, some, none,
  List, [], ◌∷◌, Time, subst, Result-cases,
}
use zensor_server.Maintenance.Schedule.{next}
use zensor_server.Maintenance.Activity.{Activity}
use zensor_server.Maintenance.ExecutionWorker.{
  Worker, World, announce, process_date, process_dates, process_activity, process_activities,
  schedule_executions,
}

module _ {V S : Type 0} (k : Worker V S) where
  pub announce-store :
      (a : Activity V) (date : Time) (r : Result (Unit {0}) × S) (w : World S)
      → (announce k a date r w).store ≡ r.1
  announce-store a date (ok _, s) w = refl
  announce-store a date (err _, s) w = refl

-- A relation of stores that holds across a round and across the read of a configuration.
pub record IsKept {V S : Type 0} (k : Worker V S) (R : S → S → Type 0) : Type 0 where
  pub same : (s : S) → R s s
  pub trans : (s t u : S) → R s t → R t u → R s u
  pub round :
      (now : Time) (a : Activity V) (date : Time) (w : World S)
      → R w.store (process_date k now a date w).store
  pub configured : (tenant : String) (s : S) → R s (k.tenants.get_or_create_configuration tenant s)

module _ {V S : Type 0} (k : Worker V S) (R : S → S → Type 0) (kept : IsKept k R) where
  -- The worlds that a tick may end in.
  abbrev pub Leads : S → Option (World S) → Type 0
  Leads s none = Unit
  Leads s (some w) = R s w.store

  Leads-trans : (s t : S) (o : Option (World S)) → R s t → Leads t o → Leads s o
  Leads-trans s t none p q = tt
  Leads-trans s t (some w) p q = kept.trans s t w.store p q

  pub process_dates-Leads :
      (rounds : ℕ) (now : Time) (a : Activity V) (last : Time) (w : World S)
      → Leads w.store (process_dates k rounds now a last w)
  unfolding process_dates
  process_dates-Leads zero now a last w = kept.same w.store
  process_dates-Leads (suc rounds) now a last w =
      elim (Result-cases (next k.calendar (suc last) a.schedule last)) [
        | inr (_, e) ↦ rw (e, process_dates) (kept.same w.store)
        | inl (date?, e) ↦ elim (Option-cases date?) [
          | inl endless ↦ rw (e, endless, process_dates) tt
          | inr (date, found) ↦
              rw (e, found, process_dates)
                (Leads-trans w.store (process_date k now a date w).store
                  (process_dates k rounds now a date (process_date k now a date w))
                  (kept.round now a date w)
                  (process_dates-Leads rounds now a date (process_date k now a date w)))
        ]
      ]

  process_activity-Leads :
      (now : Time) (a : Activity V) (w : World S) → Leads w.store (process_activity k now a w)
  unfolding process_activity
  process_activity-Leads now a w = elim (Result-cases (k.tenants.get_tenant a.tenant_id w.store)) [
    | inr (_, e) ↦ rw (e, process_activity) (kept.same w.store)
    | inl (_, e) ↦
        rw (e, process_activity)
          (Leads-trans w.store (k.tenants.get_or_create_configuration a.tenant_id w.store) _
            (kept.configured a.tenant_id w.store)
            (process_dates-Leads 3 now a now
              (record w { store = k.tenants.get_or_create_configuration a.tenant_id w.store })))
  ]

  process_activities-Leads :
      (now : Time) (found : List (Activity V)) (w : World S)
      → Leads w.store (process_activities k now found w)
  unfolding process_activities
  process_activities-Leads now [] w = kept.same w.store
  process_activities-Leads now (a ∷ rest) w = elim (Option-cases (process_activity k now a w)) [
    | inl e ↦ rw (e, process_activities) tt
    | inr (w', e) ↦
        rw (e, process_activities)
          (Leads-trans w.store w'.store (process_activities k now rest w')
            (subst (λ o. Leads w.store o) e (process_activity-Leads now a w))
            (process_activities-Leads now rest w'))
  ]

  pub schedule_executions-Leads :
      (now : Time) (w : World S) → Leads w.store (schedule_executions k now w)
  unfolding schedule_executions
  schedule_executions-Leads now w = elim (Result-cases (k.activities.find_all_active w.store)) [
    | inr (_, e) ↦ rw (e, schedule_executions) (kept.same w.store)
    | inl (found, e) ↦ rw (e, schedule_executions) (process_activities-Leads now found w)
  ]
