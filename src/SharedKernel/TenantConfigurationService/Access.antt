-- ===== src/SharedKernel/TenantConfigurationService/Access.antt =====
-- Who may change the configuration of a tenant, and the configuration that is created by default.
use zensor_server.Prelude.{
  ◌≡◌, ◌≢◌, refl, sym, subst, ap, ◌∙◌, inl, inr, String, Bool, true, false, Bool-cases, if_cases,
  some, List, [], ◌∷◌, contains, ◌==◌, ==_iff, string_eq, Time, if◌then◌else◌, Result, Result-cases,
  ok, err, Err, is_ok, is_error, wrap, wrap_error, sentinel, tenant_configuration_not_found,
  forbidden_tenant_configuration_access, run_actions, arith,
}
use zensor_server.Infra.Orm.{Orm, OrmLaws, Wrote-ok}
use zensor_server.SharedKernel.Tenant.{Tenant}
use zensor_server.SharedKernel.User.{Row, has_tenant}
use zensor_server.SharedKernel.UserService.{associate_tenants, get_user}
use zensor_server.SharedKernel.UserService.Association.{row_key, repository, associated_tenants}
use zensor_server.SharedKernel.TenantConfiguration as Configuration
use zensor_server.SharedKernel.TenantConfiguration.{
  TenantConfiguration, query_result, build, with_tenant_id, with_timezone, set_if,
  validate_timezone,
}
use zensor_server.SharedKernel.TenantConfigurationService.{
  ConfigurationRepository, written, create_default, or_create, upsert_over,
  upsert_tenant_configuration, get_or_create_tenant_configuration,
}

-- When `AssociateTenants` has succeeded for a user who can be read afterwards, the user's call of
-- `UpsertTenantConfiguration` reaches the configurations exactly for the associated tenants; for every other
-- tenant it is forbidden and changes nothing.
pub association_decides_access :
    {S C : Type 0} (o : Orm Row S) (laws : OrmLaws row_key o)
    (load_location : String → Result (Unit {0})) (configs : ConfigurationRepository C)
    (tenant_by_id : String → Result Tenant) (now at : Time) (user_id : String) (ids : List String)
    (config : TenantConfiguration) (s : S) (c : C)
    → let users = repository o now in
      let (result, s') = associate_tenants users tenant_by_id user_id ids s in
      result ≡ ok tt
      → is_ok (get_user users tenant_by_id user_id s') ≡ true
      → upsert_tenant_configuration load_location configs
          (λ id. get_user users tenant_by_id id s')
          at
          user_id
          config
          c
        ≡ (if contains ids config.tenant_id
            then upsert_over load_location configs at config
                (configs.get_by_tenant_id config.tenant_id c)
                c
            else (err (sentinel forbidden_tenant_configuration_access), c))
unfolding upsert_tenant_configuration has_tenant
association_decides_access o laws load_location configs tenant_by_id now at user_id ids config s c h
      readable =
    let users = repository o now in
    let s' = (associate_tenants users tenant_by_id user_id ids s).1 in
    elim (Result-cases (get_user users tenant_by_id user_id s')) [
      | inr (e, q) ↦ absurd (ground (arith, q, readable))
      | inl (u, q) ↦
          let same = (associated_tenants o laws tenant_by_id now user_id ids s h).1 u q in
          rw (q, same)
            (elim (Bool-cases (contains ids config.tenant_id)) [ inl e ↦ rw e | inr e ↦ rw e ])
    ]

abbrev pub configuration_key : TenantConfiguration → String
configuration_key config = config.id

abbrev pub configurations :
    {C : Type 0} → Orm TenantConfiguration C → Time → ConfigurationRepository C
configurations o now = record {
  create = Configuration.create o;
  get_by_tenant_id = Configuration.get_by_tenant_id o;
  update = Configuration.update o now;
}

module _ {C : Type 0} (o : Orm TenantConfiguration C) (laws : OrmLaws configuration_key o)
    (load_location : String → Result (Unit {0})) (now : Time) where
  abbrev configs : ConfigurationRepository C
  configs = configurations o now

  query_result-ok :
      (r : Result TenantConfiguration) {config : TenantConfiguration}
      → query_result r ≡ ok config
      → r ≡ ok config
  unfolding query_result
  query_result-ok (ok x) h = h
  query_result-ok (err e) h = absurd (ground (arith, h))

  written-ok :
      (context : String) (config : TenantConfiguration) (p : Result (Unit {0}) × C)
      {result : TenantConfiguration}
      → (written load_location configs context config p).0 ≡ ok result
      → (p.0 ≡ ok tt)
        × (result ≡ config)
        × ((written load_location configs context config p).1 ≡ p.1)
  written-ok context config (ok _, s) h = (refl, ground (arith, h), refl)
  written-ok context config (err e, s) h = cc

  build-default :
      (uuid : String) (at : Time) (tenant_id timezone : String) {config : TenantConfiguration}
      → build uuid at
          (with_tenant_id load_location tenant_id ∷ with_timezone load_location timezone ∷ [])
        ≡ ok config
      → config.tenant_id ≡ tenant_id
  unfolding build run_actions
  build-default uuid at tenant_id timezone h =
      elim (Result-cases (validate_timezone load_location timezone)) [
        | inl (_, e) ↦ ground (arith, e, h)
        | inr (x, e) ↦ absurd (ground (arith, e, h))
      ]

  -- The configuration of a tenant that had none, once one has been created.
  created_found :
      (config found : TenantConfiguration) (tenant_id : String) (s : C)
      → config.tenant_id ≡ tenant_id
      → ((id : String) (old : TenantConfiguration)
          → laws.rows id s ≡ some old
          → old.tenant_id ≢ tenant_id)
      → (wrap_error "creating tenant configuration in database" (o.create config s).0) ≡ ok tt
      → Configuration.get_by_tenant_id o tenant_id (o.create config s).1 ≡ ok found
      → found ≡ config
  unfolding Configuration.get_by_tenant_id
  created_found config found tenant_id s named none_before h q =
      let is_asked = λ (x : TenantConfiguration). x.tenant_id == tenant_id in
      let s' = (o.create config s).1 in
      let row = laws.where_holds is_asked s' (query_result-ok (o.first_where is_asked s') q) in
      elim (Result-cases (o.create config s).0) [
        | inr (x, e) ↦ absurd (ground (arith, e, h))
        | inl (_, e) ↦ ground (
          arith,
          Wrote-ok configuration_key laws.rows config s (o.create config s)
              (laws.create_writes config s) e found.id,
          row.1,
          ==_iff config.id found.id,
          none_before found.id found,
          (==_iff found.tenant_id tenant_id).0 row.0,
        )
      ]

  found_again :
      (uuid : String) (at : Time) (tenant_id timezone : String) (config : TenantConfiguration)
      (s : C)
      → Configuration.get_by_tenant_id o tenant_id s ≡ ok config
      → get_or_create_tenant_configuration load_location configs uuid at tenant_id timezone s
        ≡ (ok config, s)
  unfolding get_or_create_tenant_configuration
  found_again uuid at tenant_id timezone config s e = rw e

  abbrev pub HasOwnErrors : Type 0
  HasOwnErrors =
      (p : TenantConfiguration → Bool) (s : C) (x : Err)
      → o.first_where p s ≡ err x
      → is_error x tenant_configuration_not_found ≡ false

  missing_before :
      (tenant_id : String) (s : C) (e : Err)
      → HasOwnErrors
      → Configuration.get_by_tenant_id o tenant_id s ≡ err e
      → is_error e tenant_configuration_not_found ≡ true
      → (id : String) (old : TenantConfiguration) → laws.rows id s ≡ some old
      → old.tenant_id ≢ tenant_id
  unfolding Configuration.get_by_tenant_id query_result
  missing_before tenant_id s e own q missing id old row same =
      let is_asked = λ (x : TenantConfiguration). x.tenant_id == tenant_id in
      elim (Result-cases (o.first_where is_asked s)) [
        | inl (found, f) ↦ absurd (ground (arith, f, q))
        | inr (x, f) ↦ absurd (
            laws.where_missing is_asked s id f (ground (arith, f, q, missing, own is_asked s x f))
              row ((==_iff old.tenant_id tenant_id).1 same))
      ]

  -- What the created configuration is read as.
  Settles : String → Result TenantConfiguration × C → Type 0
  Settles tenant_id (result, s') =
      (config found : TenantConfiguration)
      → result ≡ ok config
      → Configuration.get_by_tenant_id o tenant_id s' ≡ ok found
      → found ≡ config

  create_default-Settles :
      (uuid : String) (at : Time) (tenant_id timezone : String) (s : C)
      (r : Result TenantConfiguration)
      → build uuid at
          (with_tenant_id load_location tenant_id ∷ with_timezone load_location timezone ∷ [])
        ≡ r
      → ((id : String) (old : TenantConfiguration)
          → laws.rows id s ≡ some old
          → old.tenant_id ≢ tenant_id)
      → Settles tenant_id (create_default load_location configs r s)
  unfolding Settles Configuration.create
  create_default-Settles uuid at tenant_id timezone s (err e) q none_before config found h got = cc
  create_default-Settles uuid at tenant_id timezone s (ok new) q none_before config found h got =
      let p = configs.create new s in
      let (wrote, same, rest) = written-ok "creating default tenant configuration" new p h in
      created_found new found tenant_id s (build-default uuid at tenant_id timezone q) none_before
        wrote (subst (λ x. Configuration.get_by_tenant_id o tenant_id x ≡ ok found) rest got)
      ∙ sym same

  or_create-Settles :
      (uuid : String) (at : Time) (tenant_id timezone : String) (s : C)
      (r : Result TenantConfiguration)
      → HasOwnErrors
      → Configuration.get_by_tenant_id o tenant_id s ≡ r
      → Settles tenant_id (or_create load_location configs uuid at tenant_id timezone r s)
  unfolding Settles
  or_create-Settles uuid at tenant_id timezone s (ok old) own e =
      λ config found h got. ground (arith, e, h, got)
  or_create-Settles uuid at tenant_id timezone s (err x) own e =
      let r =
        build uuid at
          (with_tenant_id load_location tenant_id ∷ with_timezone load_location timezone ∷ []) in
      if_cases (Settles tenant_id) (is_error x tenant_configuration_not_found)
        (create_default load_location configs r s) (err (wrap "getting tenant configuration" x), s)
        (λ missing.
          create_default-Settles uuid at tenant_id timezone s r refl
            (missing_before tenant_id s x own e missing))
        (λ _ config found h got. cc)

  -- Where the ORM reports only its own errors: the configuration that `GetOrCreateTenantConfiguration` has returned is the
  -- tenant's. Every further call for the tenant that can read it, with whatever default time zone,
  -- returns the same one and changes nothing.
  pub default_configuration_settles :
      (uuid uuid' : String) (at at' : Time) (tenant_id timezone timezone' : String) (s : C)
      {config : TenantConfiguration}
      → HasOwnErrors
      → let (result, s') =
          get_or_create_tenant_configuration load_location configs uuid at tenant_id timezone s in
        result ≡ ok config
        → is_ok (Configuration.get_by_tenant_id o tenant_id s') ≡ true
        → get_or_create_tenant_configuration load_location configs uuid' at' tenant_id timezone' s'
          ≡ (ok config, s')
  unfolding Settles get_or_create_tenant_configuration
  default_configuration_settles uuid uuid' at at' tenant_id timezone timezone' s {config} own h
        readable =
      let (result, s') =
        get_or_create_tenant_configuration load_location configs uuid at tenant_id timezone s in
      elim (Result-cases (Configuration.get_by_tenant_id o tenant_id s')) [
        | inr (e, q) ↦ absurd (ground (arith, q, readable))
        | inl (found, q) ↦ found_again uuid' at' tenant_id timezone' config s' (
            q
            ∙ ap ok (
                or_create-Settles uuid at tenant_id timezone s
                  (Configuration.get_by_tenant_id o tenant_id s) own refl config found h q))
      ]
