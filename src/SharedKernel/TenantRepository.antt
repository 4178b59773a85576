-- ===== src/SharedKernel/TenantRepository.antt =====
-- internal/shared_kernel/persistence/tenant_repository.go over the ORM. The entity has the fields of
-- the domain record (internal/shared_kernel/persistence/internal/tenant.go), and is taken as it.
use zensor_server.Prelude.{
  ◌+◌, String, ◌==◌, string_eq, Time, if◌then◌else◌, Result, ok, err, is_error, wrap, wrap_error,
  sentinel, Action, record_not_found, tenant_not_found,
}
use zensor_server.Infra.Orm.{Orm}
use zensor_server.SharedKernel.Tenant.{Tenant}

-- The two error tests after a query.
unfoldable pub query_result : Result Tenant → Result Tenant
query_result (ok t) = ok t
query_result (err e) =
    if is_error e record_not_found
    then err (sentinel tenant_not_found)
    else err (wrap "database query" e)

module _ {S : Type 0} (o : Orm Tenant S) where
  unfoldable pub create : Tenant → Action S (Unit {0})
  create t s =
      let (result, s') = o.create t s in (wrap_error "creating tenant in database" result, s')

  unfoldable pub get_by_id : String → S → Result Tenant
  get_by_id id s = query_result (o.first id s)

  unfoldable pub get_by_name : String → S → Result Tenant
  get_by_name name s = query_result (o.first_where (λ t. t.name == name) s)

  unfoldable pub update : Time → Tenant → Action S (Unit {0})
  update now t s =
      let (result, s') = o.save (record t { version = t.version + 1; updated_at = now }) s in
      (wrap_error "updating tenant in database" result, s')
