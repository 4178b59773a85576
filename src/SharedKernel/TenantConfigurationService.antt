-- ===== src/SharedKernel/TenantConfigurationService.antt =====
-- internal/shared_kernel/usecases/tenant_configuration_service.go. The users are read from a store that
-- the service does not change.
pub mod Access
mod Tests
use zensor_server.Prelude.{
  String, Bool, not, [], ◌∷◌, Time, ◌==◌, string_eq, if◌then◌else◌, Result, ok, err, is_error, wrap,
  sentinel, Action, user_not_found, tenant_configuration_not_found, invalid_timezone,
  forbidden_tenant_configuration_access,
}
use zensor_server.SharedKernel.User.{User, has_tenant}
use zensor_server.SharedKernel.TenantConfiguration.{
  TenantConfiguration, update_timezone, update_notification_email, with_tenant_id, with_timezone,
  build,
}

-- `TenantConfigurationRepository`; `update` reads the clock.
pub record ConfigurationRepository (C : Type 0) : Type 0 where
  pub create : TenantConfiguration → Action C (Unit {0})
  pub get_by_tenant_id : String → C → Result TenantConfiguration
  pub update : TenantConfiguration → Action C (Unit {0})

module _ {C : Type 0} (load_location : String → Result (Unit {0}))
    (configs : ConfigurationRepository C) where
  abbrev pub written :
      String → TenantConfiguration → Result (Unit {0}) × C → Result TenantConfiguration × C
  written context config (ok _, s) = (ok config, s)
  written context config (err e, s) = (err (wrap context e), s)

  -- The existing configuration with the email that was given.
  abbrev pub change_email : Time → String → Result TenantConfiguration → Result TenantConfiguration
  change_email now email (err e) = err (sentinel invalid_timezone)
  change_email now email (ok config) =
      if email == ""
      then ok config
      else (elim (update_notification_email load_location now email config) [
        | ok config' ↦ ok config'
        | err e ↦ err (wrap "updating notification email" e)
      ])

  abbrev pub write_changed : Result TenantConfiguration → Action C TenantConfiguration
  write_changed (err e) s = (err e, s)
  write_changed (ok config) s =
      written "updating tenant configuration" config (configs.update config s)

  -- `UpsertTenantConfiguration` once the existing configuration has been looked up.
  abbrev pub upsert_over :
      Time → TenantConfiguration → Result TenantConfiguration → Action C TenantConfiguration
  upsert_over now config (err e) s =
      if is_error e tenant_configuration_not_found
      then written "creating tenant configuration" config (configs.create config s)
      else (err (wrap "getting tenant configuration" e), s)
  upsert_over now config (ok existing) s =
      write_changed
        (change_email now config.notification_email
          (update_timezone load_location now config.timezone existing))
        s

  abbrev pub upsert_as : Time → TenantConfiguration → Result User → Action C TenantConfiguration
  upsert_as now config (err e) s =
      if is_error e user_not_found
      then (err (sentinel user_not_found), s)
      else (err (wrap "getting user" e), s)
  upsert_as now config (ok user) s =
      if not (has_tenant config.tenant_id user)
      then (err (sentinel forbidden_tenant_configuration_access), s)
      else upsert_over now config (configs.get_by_tenant_id config.tenant_id s) s

  -- `UpsertTenantConfiguration`, where the address is the identifier of the user.
  unfoldable pub upsert_tenant_configuration :
      (String → Result User) → Time → String → TenantConfiguration → Action C TenantConfiguration
  upsert_tenant_configuration get_user now user_email config s =
      upsert_as now config (get_user user_email) s

  abbrev pub configuration_result : Result TenantConfiguration → Result TenantConfiguration
  configuration_result (ok config) = ok config
  configuration_result (err e) =
      if is_error e tenant_configuration_not_found
      then err (sentinel tenant_configuration_not_found)
      else err (wrap "getting tenant configuration" e)

  unfoldable pub get_tenant_configuration : String → C → Result TenantConfiguration
  get_tenant_configuration tenant_id s = configuration_result (configs.get_by_tenant_id tenant_id s)

  abbrev pub create_default : Result TenantConfiguration → Action C TenantConfiguration
  create_default (err e) s = (err (wrap "building default tenant configuration" e), s)
  create_default (ok config) s =
      written "creating default tenant configuration" config (configs.create config s)

  abbrev pub or_create :
      String → Time → String → String → Result TenantConfiguration → Action C TenantConfiguration
  or_create uuid now tenant_id timezone (ok config) s = (ok config, s)
  or_create uuid now tenant_id timezone (err e) s =
      if is_error e tenant_configuration_not_found
      then create_default
          (build uuid now
            (with_tenant_id load_location tenant_id ∷ with_timezone load_location timezone ∷ []))
          s
      else (err (wrap "getting tenant configuration" e), s)

  -- `GetOrCreateTenantConfiguration`
  unfoldable pub get_or_create_tenant_configuration :
      String → Time → String → String → Action C TenantConfiguration
  get_or_create_tenant_configuration uuid now tenant_id default_timezone s =
      or_create uuid now tenant_id default_timezone (configs.get_by_tenant_id tenant_id s) s
