-- ===== src/SharedKernel/TenantService/Conflicts.antt =====
-- The optimistic lock of `UpdateTenant` against stale and concurrent updates, and soft-deleted
-- tenants.
use zensor_server.Prelude.{
  ◌≡◌, ap, ◌∙◌, ◌≢◌, inl, inr, String, true, false, some, Time, ==_iff, string_eq, nat_eq, subst,
  ok, err, Err, is_ok, Result-cases, sentinel, tenant_version_conflict, Action, arith,
}
use zensor_server.Infra.Orm.{Orm, OrmLaws, Wrote-ok}
use zensor_server.SharedKernel.Tenant.{Tenant, is_deleted, update_info}
use zensor_server.SharedKernel.TenantRepository as Repository
use zensor_server.SharedKernel.TenantRepository.{query_result}
use zensor_server.SharedKernel.TenantService.{
  live_tenant, prepare_update, write_update, update_tenant, change_tenant, soft_delete_tenant,
  activate_tenant, deactivate_tenant, adopt_device,
}
use zensor_server.SharedKernel.TenantService.Locking.{
  tenant_key, live_tenant-ok, stored, updated, prepare_update-ok, write_update-Wrote,
  update_tenant_effect,
}

module _ {S : Type 0} (o : Orm Tenant S) (laws : OrmLaws tenant_key o) where
  live_tenant-of_row :
      (id : String) (s : S) (r : Tenant)
      → is_ok (o.first id s) ≡ true
      → laws.rows id s ≡ some r
      → is_deleted r ≡ false
      → live_tenant o id s ≡ ok r
  unfolding live_tenant Repository.get_by_id query_result
  live_tenant-of_row id s r answers row live = elim (Result-cases (o.first id s)) [
    | inl (x, e) ↦ ground (arith, e, row, live, laws.first_found id s e)
    | inr (_, e) ↦ ground (arith, e, answers)
  ]

  update_tenant-conflict :
      (now : Time) (u r : Tenant) (s : S)
      → live_tenant o u.id s ≡ ok r
      → u.version ≢ 0
      → u.version ≢ r.version
      → update_tenant o now u s ≡ (err (sentinel tenant_version_conflict), s)
  unfolding update_tenant prepare_update
  update_tenant-conflict now u r s e named other = ground (arith, e)

  updated_live :
      (now : Time) (t old : Tenant)
      → is_deleted old ≡ false
      → is_deleted (updated o laws now t old) ≡ false
  unfolding is_deleted
  updated_live now t old h = h

  -- An update that names a version is refused once another update of the tenant from that version
  -- has gone through and the tenant can be read: the second caller is told of the conflict, and the
  -- store stays as it is.
  pub stale_update_refused :
      (now later : Time) (t u : Tenant) (s : S)
      → (update_tenant o now t s).0 ≡ ok tt
      → u.id ≡ t.id
      → u.version ≡ t.version
      → u.version ≢ 0
      → is_ok (o.first u.id (update_tenant o now t s).1) ≡ true
      → let s' = (update_tenant o now t s).1 in
        update_tenant o later u s' ≡ (err (sentinel tenant_version_conflict), s')
  stale_update_refused now later t u s h same_id same_version named answers =
      let (old, found, live, version, rows) = update_tenant_effect o laws now t s h in
      let s' = (update_tenant o now t s).1 in
      let row : laws.rows u.id s' ≡ some (updated o laws now t old) =
        rows u.id ∙ ground (arith, ==_iff t.id u.id, same_id) in
      update_tenant-conflict later u (updated o laws now t old) s'
        (live_tenant-of_row u.id s' (updated o laws now t old) answers row
          (updated_live now t old live))
        named (omega (arith, version))

  -- The store is left alone and the call fails.
  abbrev pub Refused : Action S (Unit {0}) → S → Type 0
  Refused m s = ((m s).0 ≢ ok tt) × ((m s).1 ≡ s)

  live_tenant-deleted :
      (id : String) (s : S) {t : Tenant}
      → laws.rows id s ≡ some t
      → is_deleted t ≡ true
      → (x : Err) × (live_tenant o id s ≡ err x)
  live_tenant-deleted id s row gone = elim (Result-cases (live_tenant o id s)) [
    | inr (x, e) ↦ (x, e)
    | inl (x, e) ↦ absurd (ground (arith, live_tenant-ok o laws id s e, row, gone))
  ]

  -- A tenant that is soft deleted is frozen: it is not updated, deleted again, activated or
  -- deactivated, and adopts no device; each of these calls fails and leaves the store alone.
  pub deleted_frozen :
      (now : Time) (id device_id : String) (s : S) {t : Tenant}
      (adopt : String → String → Action S (Unit {0})) (u : Tenant)
      → laws.rows id s ≡ some t
      → is_deleted t ≡ true
      → u.id ≡ id
      → Refused (update_tenant o now u) s
        × Refused (soft_delete_tenant o now id) s
        × Refused (activate_tenant o now id) s
        × Refused (deactivate_tenant o now id) s
        × Refused (adopt_device o adopt id device_id) s
  unfolding update_tenant prepare_update soft_delete_tenant activate_tenant deactivate_tenant
      change_tenant adopt_device
  deleted_frozen now id device_id s adopt u row gone same =
      let (x, e) = live_tenant-deleted id s row gone in ground (arith, e, same)

  stored-row :
      (now : Time) (t : Tenant) (s r : S) (old row : Tenant)
      → row ≡ update_info now t.name t.email t.description old
      → old.id ≡ t.id
      → (write_update o now row r).0 ≡ ok tt
      → laws.rows t.id (write_update o now row r).1 ≡ some (updated o laws now t old)
  unfolding update_info
  stored-row now t s r old row same key h =
      subst (λ x. laws.rows t.id (write_update o now row r).1 ≡ some (stored o laws now x)) same
        (Wrote-ok tenant_key laws.rows (stored o laws now row) r (write_update o now row r)
            (write_update-Wrote o laws now row r) h t.id
          ∙ ground (arith, ap tenant_key same, key, ==_iff row.id t.id))

  -- The lock does not cover the time between the check and the write. When two updates of a tenant
  -- both pass their checks before either writes, both writes may succeed, also from one version;
  -- the record that remains is then the second update applied to the record that both had read,
  -- with a version one higher, and nothing of the first update is left in it.
  pub concurrent_update_lost :
      (now later : Time) (t u : Tenant) (s : S) {row row' : Tenant}
      → t.id ≡ u.id
      → prepare_update o now t s ≡ ok row
      → prepare_update o later u s ≡ ok row'
      → (write_update o now row s).0 ≡ ok tt
      → (write_update o later row' (write_update o now row s).1).0 ≡ ok tt
      → (old : Tenant) × (laws.rows u.id s ≡ some old)
        × (laws.rows u.id (write_update o now row s).1 ≡ some (updated o laws now t old))
        × (laws.rows u.id (write_update o later row' (write_update o now row s).1).1
            ≡ some (updated o laws later u old))
  concurrent_update_lost now later t u s {row} {row'} same p q h k =
      let (old, found, key, live, version, made) = prepare_update-ok o laws later u s q in
      let (old', found', key', live', version', made') = prepare_update-ok o laws now t s p in
      let one : old' ≡ old = ground (arith, found, found', same) in
      let first : laws.rows t.id (write_update o now row s).1 ≡ some (updated o laws now t old') =
        stored-row now t s s old' row made' key' h in
      (
        old,
        found,
        ground (arith, first, one, same),
        stored-row later u s (write_update o now row s).1 old row' made key k,
      )
