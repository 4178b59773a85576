-- ===== src/SharedKernel/TenantService/Locking.antt =====
-- What `UpdateTenant` stores, and what it leaves alone.
use zensor_server.Prelude.{
  ◌+◌, ◌≡◌, ◌⊎◌, inl, inr, String, false, some, Time, ◌==◌, string_eq, nat_eq, if◌then◌else◌, subst,
  ok, err, Err, Result-cases, wrap_error, arith,
}
use zensor_server.Infra.Orm.{Orm, OrmLaws, Wrote, Wrote-wrap, Wrote-ok, Wrote-err}
use zensor_server.SharedKernel.Tenant.{Tenant, is_deleted, update_info, given}
use zensor_server.SharedKernel.TenantRepository as Repository
use zensor_server.SharedKernel.TenantRepository.{query_result}
use zensor_server.SharedKernel.TenantService.{
  live_tenant, check_name, prepare_update, write_update, update_tenant,
}

abbrev pub tenant_key : Tenant → String
tenant_key t = t.id

module _ {S : Type 0} (o : Orm Tenant S) (laws : OrmLaws tenant_key o) where
  pub live_tenant-ok :
      (id : String) (s : S) {t : Tenant}
      → live_tenant o id s ≡ ok t
      → (laws.rows id s ≡ some t) × (is_deleted t ≡ false) × (t.id ≡ id)
  unfolding live_tenant Repository.get_by_id query_result
  live_tenant-ok id s {t} h = elim (Result-cases (o.first id s)) [
    | inl (x, e) ↦
        let row = laws.first_found id s e in ground (arith, e, h, row, laws.row_key id s row)
    | inr (x, e) ↦ ground (arith, e, h)
  ]

  -- The row that a write of `row` stores.
  abbrev pub stored : Time → Tenant → Tenant
  stored now row = record row { version = row.version + 1; updated_at = now }

  pub write_update-Wrote :
      (now : Time) (row : Tenant) (s : S)
      → Wrote tenant_key laws.rows (stored now row) s (write_update o now row s)
  unfolding write_update Repository.update
  write_update-Wrote now row s =
      let p = o.save (stored now row) s in
      Wrote-wrap tenant_key laws.rows "updating tenant" (stored now row) s
        (wrap_error "updating tenant in database" p.0, p.1)
        (Wrote-wrap tenant_key laws.rows "updating tenant in database" (stored now row) s p
          (laws.save_writes (stored now row) s))

  -- The record that `UpdateTenant` prepares from the stored one.
  abbrev pub updated : Time → Tenant → Tenant → Tenant
  updated now t old = stored now (record old {
    name = given t.name old.name;
    email = given t.email old.email;
    description = given t.description old.description;
  })

  pub prepare_update-ok :
      (now : Time) (t : Tenant) (s : S) {row : Tenant}
      → prepare_update o now t s ≡ ok row
      → (old : Tenant) × (laws.rows t.id s ≡ some old)
        × (old.id ≡ t.id)
        × (is_deleted old ≡ false)
        × ((t.version ≡ 0) ⊎ (t.version ≡ old.version))
        × (row ≡ update_info now t.name t.email t.description old)
  unfolding prepare_update
  prepare_update-ok now t s h = elim (Result-cases (live_tenant o t.id s)) [
    | inr (_, e) ↦ ground (arith, e, h)
    | inl (old, e) ↦
        let (row, live, key) = live_tenant-ok t.id s e in
        elim (Result-cases (check_name o t old s)) [
          | inr (_, f) ↦ ground (arith, e, f, h)
          | inl (_, f) ↦ (old, row, key, live, ground (arith, e, f, h), ground (arith, e, f, h))
        ]
  ]

  update_tenant-prepared :
      (now : Time) (t : Tenant) (s : S) {row : Tenant}
      → prepare_update o now t s ≡ ok row
      → update_tenant o now t s ≡ write_update o now row s
  unfolding update_tenant
  update_tenant-prepared now t s e = rw (e, update_tenant)

  -- A successful `UpdateTenant` replaced the row of a tenant that was not deleted, with the fields
  -- that were given and a version one higher; the caller named the stored version or none; the
  -- rows of all other tenants are as before.
  pub update_tenant_effect :
      (now : Time) (t : Tenant) (s : S)
      → (update_tenant o now t s).0 ≡ ok tt
      → (old : Tenant) × (laws.rows t.id s ≡ some old)
        × (is_deleted old ≡ false)
        × ((t.version ≡ 0) ⊎ (t.version ≡ old.version))
        × ((id : String)
            → laws.rows id (update_tenant o now t s).1
              ≡ (if t.id == id then some (updated now t old) else laws.rows id s))
  unfolding update_tenant update_info
  update_tenant_effect now t s h = elim (Result-cases (prepare_update o now t s)) [
    | inr (_, e) ↦ ground (arith, e, h)
    | inl (row, e) ↦
        let (old, found, key, live, version, same) = prepare_update-ok now t s e in
        let run = update_tenant-prepared now t s e in
        (
          old,
          found,
          live,
          version,
          λ id. rw run (
              subst
                (λ x.
                  laws.rows id (write_update o now row s).1
                  ≡ (if x == id then some (updated now t old) else laws.rows id s))
                key
                (subst
                  (λ x.
                    laws.rows id (write_update o now row s).1
                    ≡ (if x.id == id then some (stored now x) else laws.rows id s))
                  same
                  (Wrote-ok tenant_key laws.rows (stored now row) s (write_update o now row s)
                    (write_update-Wrote now row s) (rw run at h) id))),
        )
  ]

  -- An `UpdateTenant` that fails, on whichever branch, leaves every row as it was.
  pub update_tenant_failure :
      (now : Time) (t : Tenant) (s : S) (id : String) {x : Err}
      → (update_tenant o now t s).0 ≡ err x
      → laws.rows id (update_tenant o now t s).1 ≡ laws.rows id s
  unfolding update_tenant
  update_tenant_failure now t s id h = elim (Result-cases (prepare_update o now t s)) [
    | inr (_, e) ↦ rw (e, update_tenant)
    | inl (row, e) ↦
        let run = update_tenant-prepared now t s e in
        rw run (
          Wrote-err tenant_key laws.rows (stored now row) s (write_update o now row s)
            (write_update-Wrote now row s) (rw run at h) id)
  ]
