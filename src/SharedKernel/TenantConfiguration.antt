-- ===== src/SharedKernel/TenantConfiguration.antt =====
-- internal/shared_kernel/domain/tenant_configuration.go, `ValidateTimezone` of
-- internal/infra/utils/timezone.go, and internal/shared_kernel/persistence/tenant_configuration_repository.go
-- over the ORM. The entity has the fields of the record and is taken as it. `load_location` is
-- `time.LoadLocation`, whose database of zones is a parameter.
use zensor_server.Prelude.{
  ℕ, ◌+◌, String, List, Time, ◌==◌, string_eq, if◌then◌else◌, Result, ok, err, is_error, wrap,
  wrap_error, sentinel, Action, run_actions, record_not_found, tenant_configuration_not_found,
  timezone_cannot_be_empty, validate_email,
}
use zensor_server.Infra.Orm.{Orm}

pub record TenantConfiguration : Type 0 where
  pub id : String
  pub tenant_id : String
  pub timezone : String
  pub notification_email : String
  pub version : ℕ
  pub created_at : Time
  pub updated_at : Time

module _ (load_location : String → Result (Unit {0})) where
  unfoldable pub validate_timezone : String → Result (Unit {0})
  validate_timezone timezone =
      if timezone == ""
      then err (sentinel timezone_cannot_be_empty)
      else wrap_error "invalid timezone" (load_location timezone)

  abbrev pub set_if : Result (Unit {0}) → TenantConfiguration → Result TenantConfiguration
  set_if (ok _) config = ok config
  set_if (err e) config = err e

  unfoldable pub update_timezone : Time → String → TenantConfiguration → Result TenantConfiguration
  update_timezone now timezone config =
      set_if (validate_timezone timezone) (record config { timezone = timezone; updated_at = now })

  unfoldable pub update_notification_email :
      Time → String → TenantConfiguration → Result TenantConfiguration
  update_notification_email now email config =
      set_if (validate_email email) (record config { notification_email = email; updated_at = now })

  -- The handlers of `tenantConfigurationBuilder`.
  abbrev pub with_tenant_id : String → TenantConfiguration → Result TenantConfiguration
  with_tenant_id tenant_id config = ok (record config { tenant_id = tenant_id })

  abbrev pub with_timezone : String → TenantConfiguration → Result TenantConfiguration
  with_timezone timezone config =
      set_if (validate_timezone timezone) (record config { timezone = timezone })

  abbrev pub with_notification_email : String → TenantConfiguration → Result TenantConfiguration
  with_notification_email email config =
      set_if (validate_email email) (record config { notification_email = email })

-- `Build`, with the generated identifier.
unfoldable pub build :
    String
    → Time
    → List (TenantConfiguration → Result TenantConfiguration)
    → Result TenantConfiguration
build uuid now actions = run_actions actions (record {
  id = uuid;
  tenant_id = "";
  timezone = "";
  notification_email = "";
  version = 1;
  created_at = now;
  updated_at = now;
})

-- The two error tests of `GetByTenantID`.
unfoldable pub query_result : Result TenantConfiguration → Result TenantConfiguration
query_result (ok config) = ok config
query_result (err e) =
    if is_error e record_not_found
    then err (sentinel tenant_configuration_not_found)
    else err (wrap "database query" e)

module _ {S : Type 0} (o : Orm TenantConfiguration S) where
  unfoldable pub create : TenantConfiguration → Action S (Unit {0})
  create config s =
      let (result, s') = o.create config s in
      (wrap_error "creating tenant configuration in database" result, s')

  unfoldable pub get_by_tenant_id : String → S → Result TenantConfiguration
  get_by_tenant_id tenant_id s =
      query_result (o.first_where (λ config. config.tenant_id == tenant_id) s)

  unfoldable pub update : Time → TenantConfiguration → Action S (Unit {0})
  update now config s =
      let (result, s') =
        o.save (record config { version = config.version + 1; updated_at = now }) s in
      (wrap_error "updating tenant configuration in database" result, s')
