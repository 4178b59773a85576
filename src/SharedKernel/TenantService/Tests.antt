-- ===== src/SharedKernel/TenantService/Tests.antt =====
-- Updates of a tenant in a table that has room for one row, and the theorems at those updates.
use zensor_server.Prelude.{
  ◌≡◌, refl, ◌⊎◌, String, true, false, Option, none, some, Time, string_eq, nat_eq, ◌==◌,
  if◌then◌else◌, ok, err, is_ok, sentinel, tenant_version_conflict, Action,
}
use zensor_server.Infra.Orm.{Orm, OrmLaws}
use zensor_server.Infra.Orm.OneRow as OneRow
use zensor_server.SharedKernel.Tenant.{Tenant, is_deleted, soft_delete, update_info}
use zensor_server.SharedKernel.TenantRepository as Repository
use zensor_server.SharedKernel.TenantRepository.{query_result}
use zensor_server.SharedKernel.TenantService.{
  live_tenant, check_name, prepare_update, write_update, update_tenant, soft_delete_tenant,
  activate_tenant, deactivate_tenant, adopt_device,
}
use zensor_server.SharedKernel.TenantService.Locking.{tenant_key, updated, update_tenant_effect}
use zensor_server.SharedKernel.TenantService.Conflicts.{
  Refused, stale_update_refused, deleted_frozen, concurrent_update_lost,
}

abbrev Table : Type 0
Table = Option Tenant

abbrev rows : String → Table → Option Tenant
rows = OneRow.rows tenant_key

abbrev one_row : Orm Tenant Table
one_row = OneRow.one_row tenant_key

abbrev one_row_laws : OrmLaws tenant_key one_row
one_row_laws = OneRow.one_row_laws tenant_key

abbrev acme : Tenant
acme = record {
  id = "t1";
  name = "Acme";
  email = "ops@acme.example";
  description = "";
  is_active = true;
  version = 4;
  created_at = 1;
  updated_at = 1;
  deleted_at = none;
}

-- What a caller sends: the version that was read, and the fields to change.
abbrev rename : String → Tenant
rename name = record acme { name = name; email = "" }

abbrev table : Table
table = some acme

update_runs : (update_tenant one_row 9 (rename "Acme Ltd") table).0 ≡ ok tt
unfolding update_tenant prepare_update live_tenant check_name write_update Repository.get_by_id
    Repository.get_by_name Repository.update query_result is_deleted update_info
update_runs = refl

update_tenant_effect_example :
    (old : Tenant) × (rows "t1" table ≡ some old)
    × (is_deleted old ≡ false)
    × ((acme.version ≡ 0) ⊎ (acme.version ≡ old.version))
    × ((id : String)
        → rows id (update_tenant one_row 9 (rename "Acme Ltd") table).1 ≡ (
            if "t1" == id
            then some (updated one_row one_row_laws 9 (rename "Acme Ltd") old)
            else rows id table))
update_tenant_effect_example =
    update_tenant_effect one_row one_row_laws 9 (rename "Acme Ltd") table update_runs

abbrev stale : Tenant
stale = record (rename "Acme Ltd") { version = 3 }

stale_fails : (update_tenant one_row 9 stale table).0 ≡ err (sentinel tenant_version_conflict)
unfolding update_tenant prepare_update live_tenant Repository.get_by_id query_result is_deleted
stale_fails = refl

row_after : is_ok (one_row.first "t1" (update_tenant one_row 9 (rename "Acme Ltd") table).1) ≡ true
unfolding update_tenant prepare_update live_tenant check_name write_update Repository.get_by_id
    Repository.get_by_name Repository.update query_result is_deleted update_info
row_after = refl

stale_update_refused_example :
    let s' = (update_tenant one_row 9 (rename "Acme Ltd") table).1 in
    update_tenant one_row 12 (rename "Acme Inc") s' ≡ (err (sentinel tenant_version_conflict), s')
stale_update_refused_example =
    stale_update_refused one_row one_row_laws 9 12 (rename "Acme Ltd") (rename "Acme Inc") table
      update_runs refl refl (λ e. cc) row_after

abbrev closed : Tenant
closed = soft_delete 8 acme

closed_gone : is_deleted closed ≡ true
unfolding is_deleted soft_delete
closed_gone = refl

closed_row : rows "t1" (some closed) ≡ some closed
unfolding soft_delete
closed_row = refl

deleted_frozen_example :
    let adopt : String → String → Action Table (Unit {0}) = λ tenant device s. (ok tt, s) in
    Refused one_row one_row_laws (update_tenant one_row 9 (rename "Acme Ltd")) (some closed)
    × Refused one_row one_row_laws (soft_delete_tenant one_row 9 "t1") (some closed)
    × Refused one_row one_row_laws (activate_tenant one_row 9 "t1") (some closed)
    × Refused one_row one_row_laws (deactivate_tenant one_row 9 "t1") (some closed)
    × Refused one_row one_row_laws (adopt_device one_row adopt "t1" "d1") (some closed)
deleted_frozen_example =
    deleted_frozen one_row one_row_laws 9 "t1" "d1" (some closed) (λ tenant device s. (ok tt, s))
      (rename "Acme Ltd") closed_row closed_gone refl

abbrev prepared : Time → String → Tenant
prepared now name = record acme { name = name; updated_at = now }

prepares :
    (now : Time)
    → prepare_update one_row now (rename "Acme Ltd") table ≡ ok (prepared now "Acme Ltd")
unfolding prepare_update live_tenant check_name Repository.get_by_id Repository.get_by_name
    query_result is_deleted update_info
prepares now = refl

prepares_other :
    (now : Time)
    → prepare_update one_row now (rename "Acme Inc") table ≡ ok (prepared now "Acme Inc")
unfolding prepare_update live_tenant check_name Repository.get_by_id Repository.get_by_name
    query_result is_deleted update_info
prepares_other now = refl

first_written : (write_update one_row 9 (prepared 9 "Acme Ltd") table).0 ≡ ok tt
unfolding write_update Repository.update
first_written = refl

second_written :
    (write_update one_row 12
      (prepared 12 "Acme Inc")
      (write_update one_row 9 (prepared 9 "Acme Ltd") table).1).0
    ≡ ok tt
unfolding write_update Repository.update
second_written = refl

concurrent_update_lost_example :
    (old : Tenant) × (rows "t1" table ≡ some old)
    × (rows "t1" (write_update one_row 9 (prepared 9 "Acme Ltd") table).1
        ≡ some (updated one_row one_row_laws 9 (rename "Acme Ltd") old))
    × (rows "t1"
          (write_update one_row 12
            (prepared 12 "Acme Inc")
            (write_update one_row 9 (prepared 9 "Acme Ltd") table).1).1
        ≡ some (updated one_row one_row_laws 12 (rename "Acme Inc") old))
concurrent_update_lost_example =
    concurrent_update_lost one_row one_row_laws 9 12 (rename "Acme Ltd") (rename "Acme Inc") table
      refl (prepares 9) (prepares_other 12) first_written second_written
