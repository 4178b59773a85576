-- ===== src/SharedKernel/UserService.antt =====
-- internal/shared_kernel/usecases/user_service.go: the tenants of a user. `FindByTenant` passes its call on.
pub mod Association
use zensor_server.Prelude.{
  String, Bool, List, [], ◌∷◌, if◌then◌else◌, Result, ok, err, is_error, wrap, wrap_error, sentinel,
  Action, tenant_not_found, user_not_found, mixed_tenant_validation,
}
use zensor_server.SharedKernel.Tenant.{Tenant}
use zensor_server.SharedKernel.User.{User}

-- `UserRepository`, over the store `S`.
pub record UserRepository (S : Type 0) : Type 0 where
  pub upsert : User → Action S (Unit {0})
  pub get_by_id : String → S → Result User

-- The tenants that were not found, and those that were.
pub record Validation : Type 0 where
  pub invalid : List String
  pub valid : List String

-- One round of the loop, before the rounds that follow it.
abbrev pub sort_tenant : String → Result Tenant → Result Validation → Result Validation
sort_tenant id (ok _) (ok v) = ok (record v { valid = id ∷ v.valid })
sort_tenant id (ok _) (err e) = err e
sort_tenant id (err e) (ok v) =
    if is_error e tenant_not_found
    then ok (record v { invalid = id ∷ v.invalid })
    else err (wrap "validating tenant" e)
sort_tenant id (err e) (err f) =
    if is_error e tenant_not_found then err f else err (wrap "validating tenant" e)

module _ {S : Type 0} (users : UserRepository S) (tenant_by_id : String → Result Tenant) where
  unfoldable pub validate_tenants : List String → Result Validation
  validate_tenants [] = ok (record { invalid = []; valid = [] })
  validate_tenants (id ∷ ids) = sort_tenant id (tenant_by_id id) (validate_tenants ids)

  abbrev pub upserted : Result (Unit {0}) × S → Result (Unit {0}) × S
  upserted (result, s) = (wrap_error "associating tenants" result, s)

  -- The tests after the loop.
  abbrev pub associate_valid :
      String → List String → List String → List String → Action S (Unit {0})
  associate_valid user_id tenant_ids [] valid s =
      upserted (users.upsert (record { id = user_id; tenants = tenant_ids }) s)
  associate_valid user_id tenant_ids (_ ∷ _) [] s = (err (sentinel tenant_not_found), s)
  associate_valid user_id tenant_ids (_ ∷ _) (_ ∷ _) s = (err (sentinel mixed_tenant_validation), s)

  abbrev pub associate : String → List String → Result Validation → Action S (Unit {0})
  associate user_id tenant_ids (err e) s = (err e, s)
  associate user_id tenant_ids (ok v) s = associate_valid user_id tenant_ids v.invalid v.valid s

  -- `AssociateTenants`, where the tenants are read from a store that it does not change.
  unfoldable pub associate_tenants : String → List String → Action S (Unit {0})
  associate_tenants user_id tenant_ids s =
      associate user_id tenant_ids (validate_tenants tenant_ids) s

  abbrev pub user_result : Result User → Result User
  user_result (ok u) = ok u
  user_result (err e) =
      if is_error e user_not_found
      then err (sentinel user_not_found)
      else err (wrap "getting user" e)

  unfoldable pub get_user : String → S → Result User
  get_user user_id s = user_result (users.get_by_id user_id s)
