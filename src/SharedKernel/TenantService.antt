-- ===== src/SharedKernel/TenantService.antt =====
-- internal/shared_kernel/usecases/tenant_service.go over the repository. `adopt_device` is
-- `DeviceAdopter.AdoptDeviceToTenant`, which the control plane implements.
pub mod Locking
pub mod Conflicts
mod Tests
use zensor_server.Prelude.{
  ℕ, String, Bool, true, false, not, ◌&&◌, ◌==◌, string_eq, nat_eq, Time, if◌then◌else◌, Result, ok,
  err, Err, is_error, is_ok, wrap, wrap_error, sentinel, Action, tenant_not_found,
  tenant_duplicated, tenant_soft_deleted, tenant_version_conflict,
}
use zensor_server.Infra.Orm.{Orm}
use zensor_server.SharedKernel.Tenant.{
  Tenant, is_deleted, soft_delete, activate, deactivate, update_info,
}
use zensor_server.SharedKernel.TenantRepository as Repository

-- The error of a lookup, passed on or wrapped.
abbrev pub lookup_error : String → Err → Err
lookup_error context e =
    if is_error e tenant_not_found then sentinel tenant_not_found else wrap context e

module _ {S : Type 0} (o : Orm Tenant S) where
  -- `CreateTenant`. On `ErrTenantNotFound` the lookup returns the zero tenant, whose ID is empty.
  unfoldable pub create_tenant : Tenant → Action S (Unit {0})
  create_tenant t s = elim (Repository.get_by_name o t.name s) [
    | ok existing ↦
        if existing.id == ""
        then (let (result, s') = Repository.create o t s in
            (wrap_error "creating tenant" result, s'))
        else (err (sentinel tenant_duplicated), s)
    | err e ↦
        if is_error e tenant_not_found
        then (let (result, s') = Repository.create o t s in
            (wrap_error "creating tenant" result, s'))
        else (err (wrap "checking existing tenant" e), s)
  ]

  unfoldable pub get_tenant : String → S → Result Tenant
  get_tenant id s = elim (Repository.get_by_id o id s) [
    | ok t ↦ ok t
    | err e ↦ err (lookup_error "getting tenant" e)
  ]

  unfoldable pub get_tenant_by_name : String → S → Result Tenant
  get_tenant_by_name name s = elim (Repository.get_by_name o name s) [
    | ok t ↦ ok t
    | err e ↦ err (lookup_error "getting tenant by name" e)
  ]

  -- The lookup that the operations on one tenant begin with, and their test of `IsDeleted`.
  unfoldable pub live_tenant : String → S → Result Tenant
  live_tenant id s = elim (Repository.get_by_id o id s) [
    | ok t ↦ if is_deleted t then err (sentinel tenant_soft_deleted) else ok t
    | err e ↦ err (lookup_error "getting tenant" e)
  ]

  -- The test for a conflicting name in `UpdateTenant`.
  unfoldable pub check_name : Tenant → Tenant → S → Result (Unit {0})
  check_name t existing s =
      if not (t.name == "") && not (t.name == existing.name)
      then elim (Repository.get_by_name o t.name s) [
        | ok other ↦ if other.id == t.id then ok tt else err (sentinel tenant_duplicated)
        | err e ↦
            if is_error e tenant_not_found then ok tt else err (wrap "checking name conflict" e)
      ]
      else ok tt

  -- `UpdateTenant` up to its write: the checks, and the record that is to be stored.
  unfoldable pub prepare_update : Time → Tenant → S → Result Tenant
  prepare_update now t s = elim (live_tenant t.id s) [
    | err e ↦ err e
    | ok existing ↦
        if not (t.version == 0) && not (t.version == existing.version)
        then err (sentinel tenant_version_conflict)
        else elim (check_name t existing s) [
          | err e ↦ err e
          | ok _ ↦ ok (update_info now t.name t.email t.description existing)
        ]
  ]

  -- The write of `UpdateTenant`.
  unfoldable pub write_update : Time → Tenant → Action S (Unit {0})
  write_update now row s =
      let (result, s') = Repository.update o now row s in (wrap_error "updating tenant" result, s')

  unfoldable pub update_tenant : Time → Tenant → Action S (Unit {0})
  update_tenant now t s = elim (prepare_update now t s) [
    | err e ↦ (err e, s)
    | ok row ↦ write_update now row s
  ]

  -- `SoftDeleteTenant`, `ActivateTenant` and `DeactivateTenant` differ in the change they make.
  unfoldable pub change_tenant : String → Time → (Tenant → Tenant) → String → Action S (Unit {0})
  change_tenant context now change id s = elim (live_tenant id s) [
    | err e ↦ (err e, s)
    | ok t ↦
        let (result, s') = Repository.update o now (change t) s in (wrap_error context result, s')
  ]

  unfoldable pub soft_delete_tenant : Time → String → Action S (Unit {0})
  soft_delete_tenant now id = change_tenant "soft deleting tenant" now (soft_delete now) id

  unfoldable pub activate_tenant : Time → String → Action S (Unit {0})
  activate_tenant now id = change_tenant "activating tenant" now (activate now) id

  unfoldable pub deactivate_tenant : Time → String → Action S (Unit {0})
  deactivate_tenant now id = change_tenant "deactivating tenant" now (deactivate now) id

  -- `AdoptDevice`
  unfoldable pub adopt_device :
      (String → String → Action S (Unit {0})) → String → String → Action S (Unit {0})
  adopt_device adopt tenant_id device_id s = elim (live_tenant tenant_id s) [
    | err e ↦ (err e, s)
    | ok _ ↦
        let (result, s') = adopt tenant_id device_id s in
        (wrap_error "adopting device to tenant" result, s')
  ]
