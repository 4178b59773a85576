-- ===== src/SharedKernel/UserService/Association.antt =====
-- The tenants of a user once `AssociateTenants` has gone through, over the repository.
use zensor_server.Prelude.{
  ◌≡◌, refl, sym, subst, ap, ◌∙◌, inl, inr, String, true, Bool-cases, some, List, [], ◌∷◌, All,
  ==_refl, string_eq, Time, Result, Result-cases, ok, err, is_ok, is_error, record_not_found, arith,
}
use zensor_server.Infra.Orm.{Orm, OrmLaws, Wrote}
use zensor_server.SharedKernel.Tenant.{Tenant}
use zensor_server.SharedKernel.User as User
use zensor_server.SharedKernel.User.{
  User, Row, from_user, to_domain, wrapped, upsert_over, read_row,
}
use zensor_server.SharedKernel.UserService.{
  UserRepository, Validation, sort_tenant, validate_tenants, upserted, associate_valid, associate,
  associate_tenants, get_user,
}

-- Every tenant was found, and none of them is in the list of those that were not.
abbrev AllFound : (String → Result Tenant) → List String → Validation → Type 0
AllFound tenant_by_id ids v = v.invalid ≡ [] → All (λ id. is_ok (tenant_by_id id) ≡ true) ids

sort_tenant-found :
    (tenant_by_id : String → Result Tenant) (id : String) (ids : List String) (t : Result Tenant)
    (r : Result Validation) {v : Validation}
    → tenant_by_id id ≡ t
    → ((w : Validation) → r ≡ ok w → AllFound tenant_by_id ids w)
    → sort_tenant id t r ≡ ok v
    → AllFound tenant_by_id (id ∷ ids) v
sort_tenant-found tenant_by_id id ids (ok t) (ok w) e h q none_invalid =
    (ground (arith, e), h w refl (ground (arith, q, none_invalid)))
sort_tenant-found tenant_by_id id ids (ok t) (err x) e h q none_invalid = cc
sort_tenant-found tenant_by_id id ids (err x) (ok w) e h q none_invalid =
    absurd (ground (arith, q, none_invalid))
sort_tenant-found tenant_by_id id ids (err x) (err y) e h q none_invalid =
    absurd (ground (arith, q))

module _ {S : Type 0} (users : UserRepository S) (tenant_by_id : String → Result Tenant) where
  validate_tenants-found :
      (ids : List String) {v : Validation}
      → validate_tenants users tenant_by_id ids ≡ ok v
      → AllFound tenant_by_id ids v
  unfolding validate_tenants
  validate_tenants-found [] q = λ none_invalid. tt
  validate_tenants-found (id ∷ ids) q =
      sort_tenant-found tenant_by_id id ids (tenant_by_id id)
        (validate_tenants users tenant_by_id ids) refl (λ w e. validate_tenants-found ids e) q

  associate_valid-ok :
      (user_id : String) (ids invalid valid : List String) (s : S)
      → (associate_valid users tenant_by_id user_id ids invalid valid s).0 ≡ ok tt
      → (invalid ≡ [])
        × (associate_valid users tenant_by_id user_id ids invalid valid s
            ≡ upserted users tenant_by_id (users.upsert (record { id = user_id; tenants = ids }) s))
  associate_valid-ok user_id ids [] valid s h = (refl, refl)
  associate_valid-ok user_id ids (_ ∷ _) [] s h = cc
  associate_valid-ok user_id ids (_ ∷ _) (_ ∷ _) s h = cc

  associate-ok :
      (user_id : String) (ids : List String) (s : S) (r : Result Validation)
      → validate_tenants users tenant_by_id ids ≡ r
      → (associate users tenant_by_id user_id ids r s).0 ≡ ok tt
      → All (λ id. is_ok (tenant_by_id id) ≡ true) ids
        × (associate users tenant_by_id user_id ids r s
            ≡ upserted users tenant_by_id (users.upsert (record { id = user_id; tenants = ids }) s))
  associate-ok user_id ids s (err e) q h = cc
  associate-ok user_id ids s (ok v) q h =
      let (none_invalid, rest) = associate_valid-ok user_id ids v.invalid v.valid s h in
      (validate_tenants-found ids q none_invalid, rest)

  pub associate_tenants-ok :
      (user_id : String) (ids : List String) (s : S)
      → (associate_tenants users tenant_by_id user_id ids s).0 ≡ ok tt
      → All (λ id. is_ok (tenant_by_id id) ≡ true) ids
        × (associate_tenants users tenant_by_id user_id ids s
            ≡ upserted users tenant_by_id (users.upsert (record { id = user_id; tenants = ids }) s))
  unfolding associate_tenants
  associate_tenants-ok user_id ids s h =
      associate-ok user_id ids s (validate_tenants users tenant_by_id ids) refl h

abbrev pub row_key : Row → String
row_key r = r.id

-- The repository as the services see it, at an instant.
abbrev pub repository : {S : Type 0} → Orm Row S → Time → UserRepository S
repository o now = record { upsert = User.upsert o now; get_by_id = User.get_by_id o }

module _ {S : Type 0} (o : Orm Row S) (laws : OrmLaws row_key o) where
  HasTenants : String → List String → S → Type 0
  HasTenants id tenants s = (row : Row) × (laws.rows id s ≡ some row) × (row.tenants ≡ tenants)

  written-HasTenants :
      (context : String) (row : Row) (s : S) (p : Result (Unit {0}) × S)
      → Wrote row_key laws.rows row s p
      → (wrapped o context p).0 ≡ ok tt
      → HasTenants row.id row.tenants (wrapped o context p).1
  unfolding HasTenants
  written-HasTenants context row s (ok _, s') w h =
      (row, ground (arith, w row.id, ==_refl row.id), refl)
  written-HasTenants context row s (err e, s') w h = cc

  upsert_over-HasTenants :
      (row : Row) (s : S) (found : Result Row)
      → o.first row.id s ≡ found
      → (upsert_over o row found s).0 ≡ ok tt
      → HasTenants row.id row.tenants (upsert_over o row found s).1
  upsert_over-HasTenants row s (ok old) e h =
      let row' : Row = record old { tenants = row.tenants; updated_at = row.updated_at } in
      let key : old.id ≡ row.id = laws.row_key row.id s (laws.first_found row.id s e) in
      subst
        (λ id. HasTenants id row.tenants (wrapped o "updating user in database" (o.save row' s)).1)
        key
        (written-HasTenants "updating user in database" row' s (o.save row' s)
          (laws.save_writes row' s) h)
  upsert_over-HasTenants row s (err x) e h = elim (Bool-cases (is_error x record_not_found)) [
    | inr q ↦ absurd (ground (arith, q, h))
    | inl q ↦
        let created : upsert_over o row (err x) s
            ≡ wrapped o "creating user in database" (o.create row s) =
          ground (arith, q) in
        subst (λ p. HasTenants row.id row.tenants p.1) (sym created)
          (written-HasTenants "creating user in database" row s (o.create row s)
            (laws.create_writes row s) (ap (λ p. p.0) (sym created) ∙ h))
  ]

  upserted-ok :
      (user_id : String) (ids : List String) (s : S) (p : Result (Unit {0}) × S) (now : Time)
      (tenant_by_id : String → Result Tenant)
      → (p.0 ≡ ok tt → HasTenants user_id ids p.1)
      → (upserted (repository o now) tenant_by_id p).0 ≡ ok tt
      → HasTenants user_id ids (upserted (repository o now) tenant_by_id p).1
  upserted-ok user_id ids s (ok _, s') now tenant_by_id k h = k refl
  upserted-ok user_id ids s (err e, s') now tenant_by_id k h = cc

  get_user-HasTenants :
      (user_id : String) (ids : List String) (now : Time) (tenant_by_id : String → Result Tenant)
      (s : S) {u : User}
      → HasTenants user_id ids s
      → get_user (repository o now) tenant_by_id user_id s ≡ ok u
      → u.tenants ≡ ids
  unfolding HasTenants get_user User.get_by_id to_domain
  get_user-HasTenants user_id ids now tenant_by_id s (row, stored, same) h =
      elim (Result-cases (o.first user_id s)) [
        | inl (found, e) ↦ ground (arith, e, laws.first_found user_id s e, stored, same, h)
        | inr (x, e) ↦ absurd (ground (arith, e, h))
      ]

  -- When `AssociateTenants` has succeeded, over the repository, each of the tenants was found, and
  -- a `GetUser` right after it that answers gives the user with exactly these tenants.
  pub associated_tenants :
      (tenant_by_id : String → Result Tenant) (now : Time) (user_id : String) (ids : List String)
      (s : S)
      → let users = repository o now in
        (associate_tenants users tenant_by_id user_id ids s).0 ≡ ok tt
        → All (λ id. is_ok (tenant_by_id id) ≡ true) ids
          × ((u : User)
              → get_user users tenant_by_id user_id
                  (associate_tenants users tenant_by_id user_id ids s).1
                ≡ ok u
              → u.tenants ≡ ids)
  unfolding User.upsert from_user
  associated_tenants tenant_by_id now user_id ids s h =
      let users = repository o now in
      let (found, upserts) = associate_tenants-ok users tenant_by_id user_id ids s h in
      let row = from_user now (record { id = user_id; tenants = ids }) in
      let p = users.upsert (record { id = user_id; tenants = ids }) s in
      let stored =
        upserted-ok user_id ids s p now tenant_by_id
          (upsert_over-HasTenants row s (o.first user_id s) refl)
          (ap (λ p. p.0) (sym upserts) ∙ h) in
      (
        found,
        λ u q.
            get_user-HasTenants user_id ids now tenant_by_id
              (associate_tenants users tenant_by_id user_id ids s).1
              (subst (λ p. HasTenants user_id ids p.1) (sym upserts) stored) q,
      )
