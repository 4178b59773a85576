-- ===== src/SharedKernel/AuthService/Addresses.antt =====
-- The addresses of the allowed users under every operation of the service, over the repository.
use Prim.Native.Char.{Char}
use zensor_server.Prelude.{
  ℕ, ◌≡◌, refl, sym, subst, ap, ◌∙◌, inl, inr, Time, String, Bool, true, false, if_cases, ◌==◌,
  ==_iff, string_eq, some, [], ◌∷◌, Result, Result-cases, ok, err, Err, is_error, wrap,
  allowed_user_not_found, record_not_found, arith,
}
use zensor_server.SharedKernel.Session.{Session}
use zensor_server.SharedKernel.AllowedUser.{
  AllowedUser, normalize_email, with_email, with_is_admin, build,
}
use zensor_server.SharedKernel.AllowedUser.Normalization.{IsLowering, normalize_email_twice}
use zensor_server.SharedKernel.AllowedUserRepository as Repository
use zensor_server.SharedKernel.AllowedUserRepository.{query_result}
use zensor_server.SharedKernel.AuthService.{
  SessionPort, UserPort, session_for, opened, after_record, saved, add_built, done,
}
use zensor_server.SharedKernel.AuthService.Login.{user_key, repository, query_result-ok}
use zensor_server.SharedKernel.AuthService.Admins.{
  build-new, EmailsDiffer, IsFreeFor, Wrote-EmailsDiffer,
}
use zensor_server.Infra.Orm.{Orm, OrmLaws}

module _ {S : Type 0} (lower : Char → Char) (users : UserPort S) where
  pub saved-store :
      (context : String) (user : AllowedUser) (p : Result (Unit {0}) × S)
      → (saved lower users context user p).1 ≡ p.1
  saved-store context user (ok _, s) = refl
  saved-store context user (err e, s) = refl

  pub done-store :
      (context : String) (p : Result (Unit {0}) × S) → (done lower users context p).1 ≡ p.1
  done-store context (result, s) = refl

  module _ {C : Type 0} (ttl : ℕ) (sessions : SessionPort C) where
    opened-users :
        (s : S) (session : Session) (p : Result (Unit {0}) × C)
        → (opened lower ttl users sessions s session p).1.0 ≡ s
    opened-users s session (ok _, c) = refl
    opened-users s session (err e, c) = refl

    pub after_record-users :
        (now : Time) (random : Result String) (name : String) (user : AllowedUser)
        (p : Result (Unit {0}) × S) (c : C)
        → (after_record lower ttl users sessions now random name user p c).1.0 ≡ p.1
    after_record-users now random name user (err e, s) c = refl
    after_record-users now (err e) name user (ok _, s) c = refl
    after_record-users now (ok id) name user (ok _, s) c =
        let session = session_for ttl now id name user in
        opened-users s session (sessions.create session c)

-- The ORM reports its own errors, and not the repository's.
abbrev pub HasOwnErrors : {S : Type 0} → Orm AllowedUser S → Type 0
HasOwnErrors {S} o =
    (p : AllowedUser → Bool) (s : S) (x : Err)
    → o.first_where p s ≡ err x
    → is_error x allowed_user_not_found ≡ false

module _ {S : Type 0} (lower : Char → Char) (lowering : IsLowering lower) (o : Orm AllowedUser S)
    (laws : OrmLaws user_key o) (own_errors : HasOwnErrors o) where
  query_result-missing :
      (p : AllowedUser → Bool) (s : S) (e : Err)
      → query_result (o.first_where p s) ≡ err e
      → is_error e allowed_user_not_found ≡ true
      → (x : Err) × (o.first_where p s ≡ err x) × (is_error x record_not_found ≡ true)
  unfolding query_result
  query_result-missing p s e h q = elim (Result-cases (o.first_where p s)) [
    | inl (u, f) ↦ absurd (ground (arith, f, h))
    | inr (x, f) ↦ (x, f, ground (arith, f, h, q, own_errors p s x f))
  ]

  -- A normalized address that `GetByEmail` does not find is nobody's.
  pub missing-IsFreeFor :
      (u : AllowedUser) (email : String) (s : S) (e : Err)
      → u.email ≡ normalize_email lower email
      → Repository.get_by_email lower o u.email s ≡ err e
      → is_error e allowed_user_not_found ≡ true
      → IsFreeFor lower o laws u s
  unfolding Repository.get_by_email
  missing-IsFreeFor u email s e named h q j b row same =
      let is_asked = λ (x : AllowedUser). x.email == normalize_email lower u.email in
      let (x, f, missing) = query_result-missing is_asked s e h q in
      let normal : normalize_email lower u.email ≡ u.email =
        ap (normalize_email lower) named ∙ normalize_email_twice lower lowering email ∙ sym named in
      absurd (
        laws.where_missing is_asked s j f missing row
          ((==_iff b.email (normalize_email lower u.email)).1 (same ∙ sym normal)))

  -- A change of a stored user that keeps the address.
  stored-IsFreeFor :
      (u old : AllowedUser) (s : S)
      → EmailsDiffer lower o laws s
      → laws.rows u.id s ≡ some old
      → u.email ≡ old.email
      → IsFreeFor lower o laws u s
  stored-IsFreeFor u old s h row same j b found equal = h j u.id b old found row (equal ∙ same)

  pub update-EmailsDiffer :
      (u old : AllowedUser) (s : S)
      → EmailsDiffer lower o laws s
      → laws.rows u.id s ≡ some old
      → u.email ≡ old.email
      → EmailsDiffer lower o laws (Repository.update lower o u s).1
  unfolding Repository.update
  update-EmailsDiffer u old s h row same =
      Wrote-EmailsDiffer lower o laws u s (o.save u s) (laws.save_writes u s)
        (stored-IsFreeFor u old s h row same) h

  pub create-EmailsDiffer :
      (u : AllowedUser) (s : S)
      → EmailsDiffer lower o laws s
      → IsFreeFor lower o laws u s
      → EmailsDiffer lower o laws (Repository.create lower o u s).1
  unfolding Repository.create
  create-EmailsDiffer u s h free =
      Wrote-EmailsDiffer lower o laws u s (o.create u s) (laws.create_writes u s) free h

  -- A user that a query has returned is stored.
  pub queried :
      (p : AllowedUser → Bool) (s : S) {u : AllowedUser}
      → query_result (o.first_where p s) ≡ ok u
      → laws.rows u.id s ≡ some u
  queried p s h = (laws.where_holds p s (query_result-ok (o.first_where p s) h)).1

  abbrev pub Keeps : S → Type 0
  Keeps = EmailsDiffer lower o laws

  pub add_built-Keeps :
      (uuid : String) (now : Time) (email : String) (is_admin : Bool) (s : S)
      (r : Result AllowedUser)
      → build uuid now (with_email lower email ∷ with_is_admin is_admin ∷ []) ≡ r
      → Keeps s
      → Keeps (add_built lower (repository lower o) r s).1
  add_built-Keeps uuid now email is_admin s (err e) q h = h
  add_built-Keeps uuid now email is_admin s (ok u) q h =
      elim (Result-cases (Repository.get_by_email lower o u.email s)) [
        | inl (old, f) ↦ rw f h
        | inr (e, f) ↦ rw f (
            if_cases (λ p. Keeps p.1) (is_error e allowed_user_not_found)
              (saved lower (repository lower o) "creating allowed user" u
                (Repository.create lower o u s))
              (err (wrap "checking existing allowed user" e), s)
              (λ missing.
                subst Keeps
                  (sym (
                    saved-store lower (repository lower o) "creating allowed user" u
                      (Repository.create lower o u s)))
                  (create-EmailsDiffer u s h (
                    missing-IsFreeFor u email s e (build-new lower uuid now email is_admin q).1 f
                      missing)))
              (λ _. h))
      ]
