-- ===== src/SharedKernel/AuthService/Uniqueness.antt =====
-- The operations of the service, each once more, for the addresses of the allowed users.
use Prim.Native.Char.{Char}
use zensor_server.Prelude.{
  ℕ, ◌≡◌, refl, sym, subst, ◌∙◌, inl, inr, Time, String, Bool, true, if_cases, not, ◌==◌, string_eq,
  [], ◌∷◌, Result, Result-cases, ok, err, Err, is_error, wrap, sentinel, allowed_user_not_found,
  email_not_allowed, email_not_verified, arith,
}
use zensor_server.SharedKernel.Session.{Session}
use zensor_server.SharedKernel.AllowedUser.{
  AllowedUser, record_login, normalize_email, with_email, with_is_admin, build,
}
use zensor_server.SharedKernel.AllowedUser.Normalization.{IsLowering, normalize_email_twice}
use zensor_server.SharedKernel.AllowedUserRepository as Repository
use zensor_server.SharedKernel.AllowedUserRepository.{query_result}
use zensor_server.SharedKernel.AuthService.{
  SessionPort, UserPort, OauthIdentity, log_in, handle_callback, add_allowed_user,
  update_allowed_user, done, bootstrap_built, bootstrap_found, bootstrap_admin,
}
use zensor_server.SharedKernel.AuthService.Login.{user_key, repository}
use zensor_server.SharedKernel.AuthService.Admins.{build-new, EmailsDiffer}
use zensor_server.Infra.Orm.{Orm, OrmLaws}
use zensor_server.SharedKernel.AuthService.{remove_allowed_user, revoke_sessions}
use zensor_server.SharedKernel.AuthService.Addresses.{
  saved-store, after_record-users, HasOwnErrors, missing-IsFreeFor, update-EmailsDiffer,
  create-EmailsDiffer, queried, Keeps, add_built-Keeps,
}
use zensor_server.Infra.Orm.{Deleted}

module _ {S : Type 0} (lower : Char → Char) (lowering : IsLowering lower) (o : Orm AllowedUser S)
    (laws : OrmLaws user_key o) (own_errors : HasOwnErrors o) where
  abbrev pub HasUniqueEmails : S → Type 0
  HasUniqueEmails = Keeps lower lowering o laws own_errors

  abbrev pub users : UserPort S
  users = repository lower o

  set_admin-Keeps :
      (now : Time) (id : String) (is_admin : Bool) (s : S)
      → HasUniqueEmails s
      → HasUniqueEmails (update_allowed_user lower users now id is_admin s).1
  unfolding update_allowed_user Repository.get_by_id
  set_admin-Keeps now id is_admin s h =
      let is_asked = λ (u : AllowedUser). u.id == id in
      elim (Result-cases (query_result (o.first_where is_asked s))) [
        | inl (old, f) ↦
            let u : AllowedUser = record old { is_admin = is_admin; updated_at = now } in
            rw
              (f, saved-store lower users "updating allowed user" u (Repository.update lower o u s))
              (update-EmailsDiffer lower lowering o laws own_errors u old s h
                (queried lower lowering o laws own_errors is_asked s f) refl)
        | inr (e, f) ↦ rw f (
            if_cases (λ (p : Result AllowedUser × S). HasUniqueEmails p.1)
              (is_error e allowed_user_not_found) (err (sentinel allowed_user_not_found), s)
              (err (wrap "getting allowed user" e), s) (λ _. h) (λ _. h))
      ]

  bootstrap_built-Keeps :
      (uuid : String) (now : Time) (email : String) (s : S) (e : Err) (r : Result AllowedUser)
      → build uuid now (with_email lower (normalize_email lower email) ∷ with_is_admin true ∷ [])
        ≡ r
      → Repository.get_by_email lower o (normalize_email lower email) s ≡ err e
      → is_error e allowed_user_not_found ≡ true
      → HasUniqueEmails s
      → HasUniqueEmails (bootstrap_built lower users r s).1
  bootstrap_built-Keeps uuid now email s e (err x) q f missing h = h
  bootstrap_built-Keeps uuid now email s e (ok u) q f missing h =
      let named = (build-new lower uuid now (normalize_email lower email) true q).1 in
      let same : normalize_email lower email ≡ u.email =
        sym (normalize_email_twice lower lowering email) ∙ sym named in
      create-EmailsDiffer lower lowering o laws own_errors u s h (
        missing-IsFreeFor lower lowering o laws own_errors u (normalize_email lower email) s e named
          (subst (λ x. Repository.get_by_email lower o x s ≡ err e) same f) missing)

  pub bootstrap_found-Keeps :
      (uuid : String) (now : Time) (email : String) (s : S) (found : Result AllowedUser)
      → Repository.get_by_email lower o (normalize_email lower email) s ≡ found
      → HasUniqueEmails s
      → HasUniqueEmails
          (bootstrap_found lower users uuid now (normalize_email lower email) found s).1
  unfolding Repository.get_by_email
  bootstrap_found-Keeps uuid now email s (ok old) f h =
      let u : AllowedUser = record old { is_admin = true; updated_at = now } in
      let is_asked =
        λ (x : AllowedUser). x.email == normalize_email lower (normalize_email lower email) in
      if_cases (λ p. HasUniqueEmails p.1) old.is_admin (ok tt, s)
        (done lower users "promoting bootstrap admin" (Repository.update lower o u s)) (λ _. h)
        (λ _.
          update-EmailsDiffer lower lowering o laws own_errors u old s h
            (queried lower lowering o laws own_errors is_asked s f) refl)
  bootstrap_found-Keeps uuid now email s (err e) f h =
      let r =
        build uuid now (with_email lower (normalize_email lower email) ∷ with_is_admin true ∷ []) in
      if_cases (λ p. HasUniqueEmails p.1) (is_error e allowed_user_not_found)
        (bootstrap_built lower users r s) (err (wrap "getting bootstrap admin" e), s)
        (λ missing. bootstrap_built-Keeps uuid now email s e r refl f missing h) (λ _. h)

  module _ {C : Type 0} (ttl : ℕ) (sessions : SessionPort C) where
    log_in-Keeps :
        (at now : Time) (random : Result String) (name email : String) (s : S) (c : C)
        (found : Result AllowedUser)
        → Repository.get_by_email lower o email s ≡ found
        → HasUniqueEmails s
        → HasUniqueEmails (log_in lower ttl users sessions at now random name found (s, c)).1.0
    unfolding Repository.get_by_email record_login
    log_in-Keeps at now random name email s c (err e) f h =
        if_cases (λ (p : Result Session × (S × C)). HasUniqueEmails p.1.0)
          (is_error e allowed_user_not_found) (err (sentinel email_not_allowed), (s, c))
          (err (wrap "looking up allowed user" e), (s, c)) (λ _. h) (λ _. h)
    log_in-Keeps at now random name email s c (ok old) f h =
        let u = record_login at name old in
        let is_asked = λ (x : AllowedUser). x.email == normalize_email lower email in
        subst HasUniqueEmails
          (sym (
            after_record-users lower users ttl sessions now random name u
              (Repository.update lower o u s) c))
          (update-EmailsDiffer lower lowering o laws own_errors u old s h
            (queried lower lowering o laws own_errors is_asked s f) refl)

    handle_callback-Keeps :
        (at now : Time) (random : Result String) (answer : Result OauthIdentity) (s : S) (c : C)
        → HasUniqueEmails s
        → HasUniqueEmails (handle_callback lower ttl users sessions at now random answer (s, c)).1.0
    unfolding handle_callback
    handle_callback-Keeps at now random (err e) s c h = h
    handle_callback-Keeps at now random (ok identity) s c h =
        let email = normalize_email lower identity.email in
        let found = Repository.get_by_email lower o email s in
        if_cases (λ (p : Result Session × (S × C)). HasUniqueEmails p.1.0)
          (not identity.email_verified) (err (sentinel email_not_verified), (s, c))
          (log_in lower ttl users sessions at now random identity.name found (s, c)) (λ _. h)
          (λ _. log_in-Keeps at now random identity.name email s c found refl h)

    Deleted-Keeps :
        (id : String) (s : S) (p : Result (Unit {0}) × S)
        → Deleted user_key laws.rows id s p
        → HasUniqueEmails s
        → HasUniqueEmails p.1
    Deleted-Keeps id s (ok _, s') w h i j a b ha hb same =
        h i j a b (ground (arith, w i, ha)) (ground (arith, w j, hb)) same
    Deleted-Keeps id s (err e, s') w h i j a b ha hb same =
        h i j a b (ground (arith, w i, ha)) (ground (arith, w j, hb)) same

    revoke_sessions-store :
        (id : String) (p : Result (Unit {0}) × S) (c : C)
        → (revoke_sessions sessions id p c).1.0 ≡ p.1
    revoke_sessions-store id (ok _, s) c = refl
    revoke_sessions-store id (err e, s) c = refl

    remove-Keeps :
        (id : String) (s : S) (c : C)
        → HasUniqueEmails s
        → HasUniqueEmails (remove_allowed_user sessions users.delete id (s, c)).1.0
    unfolding remove_allowed_user Repository.delete
    remove-Keeps id s c h =
        subst HasUniqueEmails (sym (revoke_sessions-store id (Repository.delete lower o id s) c))
          (Deleted-Keeps id s (o.delete id s) (laws.delete_writes id s) h)

    -- Where the ORM reports only its own errors and lower case is stable, no two allowed users ever
    -- have one address: if they differ in the table, they differ after each operation of the
    -- service, whatever it answers and whatever fails in it.
    pub emails_stay_unique :
        (s : S) (c : C)
        → EmailsDiffer lower o laws s
        → ((uuid : String) (now : Time) (email : String) (is_admin : Bool)
            → EmailsDiffer lower o laws (add_allowed_user lower users uuid now email is_admin s).1)
          × ((now : Time) (id : String) (is_admin : Bool)
              → EmailsDiffer lower o laws (update_allowed_user lower users now id is_admin s).1)
          × ((id : String)
              → EmailsDiffer lower o laws (remove_allowed_user sessions users.delete id (s, c)).1.0)
          × ((uuid : String) (now : Time) (email : String)
              → EmailsDiffer lower o laws (bootstrap_admin lower users uuid now email s).1)
          × ((at now : Time) (random : Result String) (answer : Result OauthIdentity)
              → EmailsDiffer lower o laws
                  (handle_callback lower ttl users sessions at now random answer (s, c)).1.0)
    unfolding add_allowed_user bootstrap_admin
    emails_stay_unique s c h = (
      λ uuid now email is_admin.
          add_built-Keeps lower lowering o laws own_errors uuid now email is_admin s
            (build uuid now (with_email lower email ∷ with_is_admin is_admin ∷ [])) refl h,
      λ now id is_admin. set_admin-Keeps now id is_admin s h,
      λ id. remove-Keeps id s c h,
      λ uuid now email.
          let normalized = normalize_email lower email in
          if_cases (λ p. HasUniqueEmails p.1) (email == "") (ok tt, s)
            (bootstrap_found lower users uuid now normalized
              (Repository.get_by_email lower o normalized s) s)
            (λ _. h)
            (λ _.
              bootstrap_found-Keeps uuid now email s (Repository.get_by_email lower o normalized s)
                refl h),
      λ at now random answer. handle_callback-Keeps at now random answer s c h,
    )
