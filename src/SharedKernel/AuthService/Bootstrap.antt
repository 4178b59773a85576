-- ===== src/SharedKernel/AuthService/Bootstrap.antt =====
-- The administrator that the configuration names, over the repository.
use Prim.Native.Char.{Char}
use zensor_server.Prelude.{
  ℕ, ◌≡◌, ◌≢◌, refl, sym, ap, ◌∙◌, Time, String, true, if_cases, ◌==◌, ==_iff, ==_refl, string_eq,
  some, [], ◌∷◌, Result, ok, err, is_error, wrap, wrap_error, allowed_user_not_found, arith,
}
use zensor_server.SharedKernel.Session.{Session}
use zensor_server.SharedKernel.AllowedUser.{
  AllowedUser, record_login, normalize_email, with_email, with_is_admin, build,
}
use zensor_server.SharedKernel.AllowedUser.Normalization.{IsLowering, normalize_email_twice}
use zensor_server.SharedKernel.AllowedUserRepository as Repository
use zensor_server.SharedKernel.AllowedUserRepository.{query_result}
use zensor_server.SharedKernel.AuthService.{
  SessionPort, UserPort, OauthIdentity, session_for, handle_callback, done, bootstrap_built,
  bootstrap_found, bootstrap_admin,
}
use zensor_server.SharedKernel.AuthService.Login.{user_key, repository, query_result-ok}
use zensor_server.SharedKernel.AuthService.Admins.{build-new, EmailsDiffer}
use zensor_server.Infra.Orm.{Orm, OrmLaws, Wrote}
use zensor_server.SharedKernel.AuthService.Login.{handle_callback-ok}
use zensor_server.SharedKernel.AuthService.Addresses.{HasOwnErrors}
use zensor_server.SharedKernel.AuthService.Uniqueness.{emails_stay_unique}
use zensor_server.Infra.Orm.{Wrote-ok}

module _ {S : Type 0} (lower : Char → Char) (lowering : IsLowering lower) (o : Orm AllowedUser S)
    (laws : OrmLaws user_key o) (own_errors : HasOwnErrors o) where
  abbrev users : UserPort S
  users = repository lower o

  -- An administrator is stored under an address.
  abbrev pub HasAdmin : String → S → Type 0
  HasAdmin email s =
      (u : AllowedUser) × (laws.rows u.id s ≡ some u) × (u.email ≡ email) × (u.is_admin ≡ true)

  wrap_error-ok :
      (context : String) (r : Result (Unit {0})) → wrap_error context r ≡ ok tt → r ≡ ok tt
  wrap_error-ok context (ok _) h = refl
  wrap_error-ok context (err e) h = cc

  written-HasAdmin :
      (email : String) (u : AllowedUser) (s : S) (p : Result (Unit {0}) × S)
      → Wrote user_key laws.rows u s p
      → u.email ≡ email
      → u.is_admin ≡ true
      → p.0 ≡ ok tt
      → HasAdmin email p.1
  written-HasAdmin email u s p w named admin q =
      (u, ground (arith, Wrote-ok user_key laws.rows u s p w q u.id, ==_refl u.id), named, admin)

  bootstrap_built-HasAdmin :
      (uuid : String) (now : Time) (email : String) (s : S) (r : Result AllowedUser)
      → build uuid now (with_email lower (normalize_email lower email) ∷ with_is_admin true ∷ [])
        ≡ r
      → (bootstrap_built lower users r s).0 ≡ ok tt
      → HasAdmin (normalize_email lower email) (bootstrap_built lower users r s).1
  unfolding Repository.create
  bootstrap_built-HasAdmin uuid now email s (err x) q h = cc
  bootstrap_built-HasAdmin uuid now email s (ok u) q h =
      let (_, named, admin, _) = build-new lower uuid now (normalize_email lower email) true q in
      written-HasAdmin (normalize_email lower email) u s (o.create u s) (laws.create_writes u s)
        (named ∙ normalize_email_twice lower lowering email) admin
        (wrap_error-ok "creating allowed user in database" (o.create u s).0 (
          wrap_error-ok "creating bootstrap admin"
            (wrap_error "creating allowed user in database" (o.create u s).0) h))

  abbrev Promises : String → Result (Unit {0}) × S → Type 0
  Promises email p = p.0 ≡ ok tt → HasAdmin email p.1

  bootstrap_found-HasAdmin :
      (uuid : String) (now : Time) (email : String) (s : S) (found : Result AllowedUser)
      → Repository.get_by_email lower o (normalize_email lower email) s ≡ found
      → Promises
          (normalize_email lower email)
          (bootstrap_found lower users uuid now (normalize_email lower email) found s)
  unfolding Repository.get_by_email Repository.update
  bootstrap_found-HasAdmin uuid now email s (err e) f =
      let r =
        build uuid now (with_email lower (normalize_email lower email) ∷ with_is_admin true ∷ []) in
      if_cases (Promises (normalize_email lower email)) (is_error e allowed_user_not_found)
        (bootstrap_built lower users r s) (err (wrap "getting bootstrap admin" e), s)
        (λ _ q. bootstrap_built-HasAdmin uuid now email s r refl q) (λ _ q. cc)
  bootstrap_found-HasAdmin uuid now email s (ok old) f =
      let normalized = normalize_email lower email in
      let u : AllowedUser = record old { is_admin = true; updated_at = now } in
      let is_asked = λ (x : AllowedUser). x.email == normalize_email lower normalized in
      let row = laws.where_holds is_asked s (query_result-ok (o.first_where is_asked s) f) in
      let named : old.email ≡ normalized =
        (==_iff old.email (normalize_email lower normalized)).0 row.0
        ∙ normalize_email_twice lower lowering email in
      if_cases (Promises normalized) old.is_admin (ok tt, s)
        (done lower users "promoting bootstrap admin" (Repository.update lower o u s))
        (λ admin _. (old, row.1, named, admin))
        (λ _ q. written-HasAdmin normalized u s (o.save u s) (laws.save_writes u s) named refl (
          wrap_error-ok "updating allowed user in database" (o.save u s).0 (
            wrap_error-ok "promoting bootstrap admin"
              (wrap_error "updating allowed user in database" (o.save u s).0) q)))

  bootstrap_admin-HasAdmin :
      (uuid : String) (now : Time) (email : String) (s : S)
      → email ≢ ""
      → Promises (normalize_email lower email) (bootstrap_admin lower users uuid now email s)
  unfolding bootstrap_admin
  bootstrap_admin-HasAdmin uuid now email s given =
      let normalized = normalize_email lower email in
      let found = Repository.get_by_email lower o normalized s in
      if_cases (Promises normalized) (email == "") (ok tt, s)
        (bootstrap_found lower users uuid now normalized found s)
        (λ empty. absurd (given ((==_iff email "").0 empty)))
        (λ _. bootstrap_found-HasAdmin uuid now email s found refl)

  -- Who is found under the address of an administrator is an administrator.
  login-admin :
      (s : S) (boss user : AllowedUser) (email : String)
      → EmailsDiffer lower o laws s
      → laws.rows boss.id s ≡ some boss
      → boss.email ≡ normalize_email lower email
      → boss.is_admin ≡ true
      → Repository.get_by_email lower o (normalize_email lower email) s ≡ ok user
      → (session : Session) → session.is_admin ≡ user.is_admin
      → session.is_admin ≡ true
  unfolding Repository.get_by_email
  login-admin s boss user email differ stored named admin found session rights =
      let is_asked =
        λ (x : AllowedUser). x.email == normalize_email lower (normalize_email lower email) in
      let row = laws.where_holds is_asked s (query_result-ok (o.first_where is_asked s) found) in
      let user_named : user.email ≡ normalize_email lower email =
        (==_iff user.email (normalize_email lower (normalize_email lower email))).0 row.0
        ∙ normalize_email_twice lower lowering email in
      let one : boss.id ≡ user.id =
        differ boss.id user.id boss user stored row.1 (named ∙ sym user_named) in
      let both : some boss ≡ some user = sym stored ∙ ap (λ id. laws.rows id s) one ∙ row.1 in
      ground (arith, both, admin, rights)

  -- Where the ORM reports its own errors and lower case is stable: when `BootstrapAdmin` has succeeded with an
  -- address that is not empty, in a table where the addresses differ, an administrator is stored under the
  -- normalized address, and whoever the provider identifies by that address, in any spelling, gets an
  -- administrator's session from the next `HandleCallback` that succeeds.
  pub bootstrap_grants_admin :
      {C : Type 0} (ttl : ℕ) (sessions : SessionPort C) (uuid : String) (now : Time)
      (email : String) (s : S) (c : C)
      → EmailsDiffer lower o laws s
      → email ≢ ""
      → (bootstrap_admin lower users uuid now email s).0 ≡ ok tt
      → HasAdmin (normalize_email lower email) (bootstrap_admin lower users uuid now email s).1
        × ((at later : Time) (random : Result String) (identity : OauthIdentity) (session : Session)
            → normalize_email lower identity.email ≡ normalize_email lower email
            → (handle_callback lower ttl users sessions at later random
                (ok identity)
                ((bootstrap_admin lower users uuid now email s).1, c)).0
              ≡ ok session
            → session.is_admin ≡ true)
  unfolding session_for record_login
  bootstrap_grants_admin ttl sessions uuid now email s c unique given h =
      let s' = (bootstrap_admin lower users uuid now email s).1 in
      let (boss, stored, named, admin) = bootstrap_admin-HasAdmin uuid now email s given h in
      let (_, _, _, differ, _) =
        emails_stay_unique lower lowering o laws own_errors ttl sessions s c unique in
      (
        (boss, stored, named, admin),
        λ at later random identity session spelling opens.
            let (other, user, _, answered, _, found, _, made, _, _, _) =
              handle_callback-ok lower ttl users sessions at later random (ok identity) s' c
                opens in
            let same : other.email ≡ identity.email = ground (arith, answered) in
            login-admin s' boss user other.email (differ uuid now email) stored
              (named ∙ sym spelling ∙ sym (ap (normalize_email lower) same)) admin found session
              (ap (λ x. x.is_admin) made),
      )
