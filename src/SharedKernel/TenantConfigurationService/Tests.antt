-- ===== src/SharedKernel/TenantConfigurationService/Tests.antt =====
-- A user, a tenant and its configuration in tables that have room for one row.
use zensor_server.Prelude.{
  ◌≡◌, refl, String, true, false, Option, none, some, [], ◌∷◌, contains, ◌==◌, string_eq,
  if◌then◌else◌, Result, ok, err, Err, foreign, is_ok, is_error, sentinel,
  tenant_configuration_not_found, tenant_not_found, forbidden_tenant_configuration_access,
  run_actions, arith,
}
use zensor_server.Infra.Orm.{Orm, OrmLaws}
use zensor_server.Infra.Orm.OneRow as OneRow
use zensor_server.SharedKernel.Tenant.{Tenant}
use zensor_server.SharedKernel.User as User
use zensor_server.SharedKernel.User.{User, Row, from_user, to_domain}
use zensor_server.SharedKernel.UserService.{associate_tenants, validate_tenants, get_user}
use zensor_server.SharedKernel.UserService.Association.{row_key, repository}
use zensor_server.SharedKernel.TenantConfiguration as Configuration
use zensor_server.SharedKernel.TenantConfiguration.{
  TenantConfiguration, query_result, build, validate_timezone,
}
use zensor_server.SharedKernel.TenantConfigurationService.{
  upsert_over, upsert_tenant_configuration, get_or_create_tenant_configuration,
}
use zensor_server.SharedKernel.TenantConfigurationService.Access.{
  association_decides_access, configuration_key, configurations, HasOwnErrors,
  default_configuration_settles,
}

abbrev acme : Tenant
acme = record {
  id = "t1";
  name = "Acme";
  email = "";
  description = "";
  is_active = true;
  version = 1;
  created_at = 1;
  updated_at = 1;
  deleted_at = none;
}

abbrev tenant_by_id : String → Result Tenant
tenant_by_id id = if id == "t1" then ok acme else err (sentinel tenant_not_found)

abbrev users : Orm Row (Option Row)
users = OneRow.one_row row_key

abbrev user_laws : OrmLaws row_key users
user_laws = OneRow.one_row_laws row_key

abbrev tables : Orm TenantConfiguration (Option TenantConfiguration)
tables = OneRow.one_row configuration_key

abbrev zones : String → Result (Unit {0})
zones name = if name == "UTC" then ok tt else err (foreign "unknown time zone")

abbrev after_association : Option Row
after_association = (associate_tenants (repository users 3) tenant_by_id "ann" ("t1" ∷ []) none).1

associates : (associate_tenants (repository users 3) tenant_by_id "ann" ("t1" ∷ []) none).0 ≡ ok tt
unfolding associate_tenants validate_tenants User.upsert from_user
associates = refl

reads : is_ok (get_user (repository users 3) tenant_by_id "ann" after_association) ≡ true
unfolding associate_tenants validate_tenants User.upsert from_user get_user User.get_by_id
reads = refl

abbrev wanted : TenantConfiguration
wanted = record {
  id = "c1";
  tenant_id = "t2";
  timezone = "UTC";
  notification_email = "";
  version = 1;
  created_at = 4;
  updated_at = 4;
}

association_decides_access_example :
    upsert_tenant_configuration zones
      (configurations tables 5)
      (λ id. get_user (repository users 3) tenant_by_id id after_association)
      5
      "ann"
      wanted
      none
    ≡ (if contains {A = String} ("t1" ∷ []) "t2"
        then upsert_over zones
            (configurations tables 5)
            5
            wanted
            ((configurations tables 5).get_by_tenant_id "t2" none)
            none
        else (err (sentinel forbidden_tenant_configuration_access), none))
association_decides_access_example =
    association_decides_access users user_laws zones (configurations tables 5) tenant_by_id 3 5
      "ann" ("t1" ∷ []) wanted none none associates reads

read_error :
    (o : Option TenantConfiguration) (x : Err)
    → OneRow.read configuration_key o ≡ err x
    → is_error x tenant_configuration_not_found ≡ false
read_error none x h = ground (arith, h)
read_error (some u) x h = cc

own_errors : HasOwnErrors tables (OneRow.one_row_laws configuration_key) zones 5
own_errors p s x h = read_error (OneRow.find_where configuration_key p s) x h

abbrev default_made : TenantConfiguration
default_made = record {
  id = "c9";
  tenant_id = "t1";
  timezone = "UTC";
  notification_email = "";
  version = 1;
  created_at = 4;
  updated_at = 4;
}

abbrev with_default : Option TenantConfiguration
with_default =
    (get_or_create_tenant_configuration zones (configurations tables 5) "c9" 4 "t1" "UTC" none).1

creates :
    (get_or_create_tenant_configuration zones (configurations tables 5) "c9" 4 "t1" "UTC" none).0
    ≡ ok default_made
unfolding get_or_create_tenant_configuration Configuration.get_by_tenant_id query_result build
    run_actions validate_timezone Configuration.create
creates = refl

reads_default : is_ok (Configuration.get_by_tenant_id tables "t1" with_default) ≡ true
unfolding get_or_create_tenant_configuration Configuration.get_by_tenant_id query_result build
    run_actions validate_timezone Configuration.create
reads_default = refl

default_configuration_settles_example :
    get_or_create_tenant_configuration zones (configurations tables 5) "c8" 6 "t1" "" with_default
    ≡ (ok default_made, with_default)
default_configuration_settles_example =
    default_configuration_settles tables (OneRow.one_row_laws configuration_key) zones 5 "c9" "c8" 4
      6 "t1" "UTC" "" none own_errors creates reads_default
