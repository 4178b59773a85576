-- ===== src/Maintenance/ActivityService.antt =====
-- internal/maintenance/usecases/activity_service.go. `ListActivitiesByTenant` passes its call on.
pub mod Frozen
mod Tests
use zensor_server.Prelude.{
  String, Bool, Time, if◌then◌else◌, Result, ok, err, Err, is_error, wrap, wrap_error, sentinel,
  Action, tenant_not_found, activity_not_found, activity_deleted, activity_already_deleted,
  Sentinel,
}
use zensor_server.Maintenance.Activity.{Activity, is_deleted, activate, deactivate}
use zensor_server.Maintenance.Ports.{ActivityRepository, TenantPort}

-- The error of a lookup, passed on or wrapped.
abbrev pub lookup_error : Err → Err
lookup_error e =
    if is_error e activity_not_found
    then sentinel activity_not_found
    else wrap "getting maintenance activity" e

module _ {V S : Type 0} (r : ActivityRepository V S) (tenants : TenantPort S) where
  unfoldable pub create_activity : Activity V → Action S (Unit {0})
  create_activity a s = elim (tenants.get_tenant a.tenant_id s) [
    | err e ↦ (
      err (
          if is_error e tenant_not_found
          then wrap "tenant not found" e
          else wrap "getting tenant" e),
      s,
    )
    | ok _ ↦
        let (result, s') = r.create a s in (wrap_error "creating maintenance activity" result, s')
  ]

  unfoldable pub get_activity : String → S → Result (Activity V)
  get_activity id s = elim (r.get_by_id id s) [ ok a ↦ ok a | err e ↦ err (lookup_error e) ]

  -- The lookup that each change begins with, and its test of `IsDeleted`, which differ in the error.
  unfoldable pub live_activity : Sentinel → String → S → Result (Activity V)
  live_activity deleted id s = elim (r.get_by_id id s) [
    | err e ↦ err (lookup_error e)
    | ok a ↦ if is_deleted a then err (sentinel deleted) else ok a
  ]

  unfoldable pub update_activity : Activity V → Action S (Unit {0})
  update_activity a s = elim (live_activity activity_deleted a.id s) [
    | err e ↦ (err e, s)
    | ok _ ↦
        let (result, s') = r.update a s in (wrap_error "updating maintenance activity" result, s')
  ]

  unfoldable pub delete_activity : String → Action S (Unit {0})
  delete_activity id s = elim (live_activity activity_already_deleted id s) [
    | err e ↦ (err e, s)
    | ok _ ↦
        let (result, s') = r.delete id s in (wrap_error "deleting maintenance activity" result, s')
  ]

  unfoldable pub activate_activity : Time → String → Action S (Unit {0})
  activate_activity now id s = elim (live_activity activity_deleted id s) [
    | err e ↦ (err e, s)
    | ok a ↦ r.update (activate now a) s
  ]

  unfoldable pub deactivate_activity : Time → String → Action S (Unit {0})
  deactivate_activity now id s = elim (live_activity activity_deleted id s) [
    | err e ↦ (err e, s)
    | ok a ↦ r.update (deactivate now a) s
  ]
