-- ===== src/Maintenance/ActivityService/Frozen.antt =====
-- Changes of activities that are deleted or not found.
use zensor_server.Prelude.{
  ◌≡◌, inl, inr, String, true, false, Time, ok, err, Err, sentinel, is_ok, Result-cases, Action,
  Sentinel, activity_deleted, activity_already_deleted, arith,
}
use zensor_server.Maintenance.Activity.{Activity, is_deleted}
use zensor_server.Maintenance.Ports.{ActivityRepository, TenantPort}
use zensor_server.Maintenance.ActivityService.{
  lookup_error, live_activity, update_activity, delete_activity, activate_activity,
  deactivate_activity,
}

module _ {V S : Type 0} (r : ActivityRepository V S) (tenants : TenantPort S) where
  -- The call fails and leaves the store alone.
  abbrev pub Refused : Action S (Unit {0}) → S → Type 0
  Refused m s = (is_ok (m s).0 ≡ false) × ((m s).1 ≡ s)

  -- No live activity is found under an identifier.
  abbrev pub IsUnavailable : String → S → Type 0
  IsUnavailable id s = (a : Activity V) → r.get_by_id id s ≡ ok a → is_deleted a ≡ true

  live_activity-unavailable :
      (deleted : Sentinel) (id : String) (s : S)
      → IsUnavailable id s
      → (x : Err) × (live_activity r tenants deleted id s ≡ err x)
  unfolding live_activity
  live_activity-unavailable deleted id s h = elim (Result-cases (r.get_by_id id s)) [
    | inr (x, e) ↦ (lookup_error x, rw (e, live_activity))
    | inl (a, e) ↦ (sentinel deleted, rw (e, live_activity, h a e))
  ]

  -- Where no activity that is live is found, because there is none, the lookup fails or it has been
  -- deleted, every change of it is refused: it is not updated, deleted, activated or deactivated.
  pub unavailable_frozen :
      (now : Time) (id : String) (a : Activity V) (s : S)
      → a.id ≡ id
      → IsUnavailable id s
      → Refused (update_activity r tenants a) s
        × Refused (delete_activity r tenants id) s
        × Refused (activate_activity r tenants now id) s
        × Refused (deactivate_activity r tenants now id) s
  unfolding update_activity delete_activity activate_activity deactivate_activity
  unavailable_frozen now id a s same h =
      let (x, e) = live_activity-unavailable activity_deleted id s h in
      let (y, f) = live_activity-unavailable activity_already_deleted id s h in
      ground (arith, e, f, same)
