-- ===== src/SharedKernel/AuthService/Admins.antt =====
-- The rows of allowed users that the service adds and changes, over the repository.
use Prim.Native.Char.{Char}
use zensor_server.Prelude.{
  ◌≡◌, refl, sym, ap, ◌∙◌, inl, inr, Time, String, Bool, true, Bool-cases, ==_iff, string_eq, some,
  [], ◌∷◌, Result, Result-cases, ok, err, Err, validate_email, is_error, allowed_user_not_found,
  run_actions, arith,
}
use zensor_server.SharedKernel.AllowedUser.{
  AllowedUser, normalize_email, with_email, with_is_admin, build,
}
use zensor_server.SharedKernel.AuthService.{
  UserPort, saved, add_checked, set_admin, update_allowed_user,
}
use zensor_server.SharedKernel.AuthService.Login.{user_key}
use zensor_server.Infra.Orm.{Orm, OrmLaws, Wrote}

module _ {S : Type 0} (lower : Char → Char) (users : UserPort S) where
  saved-ok :
      (context : String) (user : AllowedUser) (p : Result (Unit {0}) × S) {found : AllowedUser}
      → (saved lower users context user p).0 ≡ ok found
      → (found ≡ user) × (p.0 ≡ ok tt) × ((saved lower users context user p).1 ≡ p.1)
  saved-ok context user (ok _, s) h = (ground (arith, h), refl, refl)
  saved-ok context user (err e, s) h = cc

  set_admin-ok :
      (now : Time) (is_admin : Bool) (found : Result AllowedUser) (s : S) {user : AllowedUser}
      → (set_admin lower users now is_admin found s).0 ≡ ok user
      → (old : AllowedUser) × (found ≡ ok old)
        × (user ≡ record old { is_admin = is_admin; updated_at = now })
        × ((users.update (record old { is_admin = is_admin; updated_at = now }) s).0 ≡ ok tt)
        × ((set_admin lower users now is_admin found s).1
            ≡ (users.update (record old { is_admin = is_admin; updated_at = now }) s).1)
  set_admin-ok now is_admin (err e) s h = absurd (ground (arith, h))
  set_admin-ok now is_admin (ok old) s h =
      let user' : AllowedUser = record old { is_admin = is_admin; updated_at = now } in
      let (same, updated, rest) = saved-ok "updating allowed user" user' (users.update user' s) h in
      (old, refl, same, updated, rest)

  pub update_allowed_user-ok :
      (now : Time) (id : String) (is_admin : Bool) (s : S) {user : AllowedUser}
      → (update_allowed_user lower users now id is_admin s).0 ≡ ok user
      → (old : AllowedUser) × (users.get_by_id id s ≡ ok old)
        × (user ≡ record old { is_admin = is_admin; updated_at = now })
        × ((users.update (record old { is_admin = is_admin; updated_at = now }) s).0 ≡ ok tt)
        × ((update_allowed_user lower users now id is_admin s).1
            ≡ (users.update (record old { is_admin = is_admin; updated_at = now }) s).1)
  unfolding update_allowed_user
  update_allowed_user-ok now id is_admin s h = set_admin-ok now is_admin (users.get_by_id id s) s h

  add_checked-ok :
      (user : AllowedUser) (found : Result AllowedUser) (s : S) {added : AllowedUser}
      → (add_checked lower users user found s).0 ≡ ok added
      → (e : Err) × (found ≡ err e)
        × (is_error e allowed_user_not_found ≡ true)
        × (added ≡ user)
        × ((users.create user s).0 ≡ ok tt)
        × ((add_checked lower users user found s).1 ≡ (users.create user s).1)
  add_checked-ok user (ok _) s h = cc
  add_checked-ok user (err e) s h = elim (Bool-cases (is_error e allowed_user_not_found)) [
    | inr q ↦ absurd (ground (arith, q, h))
    | inl q ↦
        let missing : add_checked lower users user (err e) s
            ≡ saved lower users "creating allowed user" user (users.create user s) =
          ground (arith, q) in
        let (same, created, rest) =
          saved-ok "creating allowed user" user (users.create user s)
            (ap (λ p. p.0) (sym missing) ∙ h) in
        (e, refl, q, same, created, ap (λ p. p.1) missing ∙ rest)
  ]

pub build-new :
    (lower : Char → Char) (uuid : String) (now : Time) (email : String) (is_admin : Bool)
    {u : AllowedUser}
    → build uuid now (with_email lower email ∷ with_is_admin is_admin ∷ []) ≡ ok u
    → (u.id ≡ uuid)
      × (u.email ≡ normalize_email lower email)
      × (u.is_admin ≡ is_admin)
      × (validate_email u.email ≡ ok tt)
unfolding build run_actions
build-new lower uuid now email is_admin {u} h =
    elim (Result-cases (validate_email (normalize_email lower email))) [
      | inr (e, q) ↦ absurd (ground (arith, q, h))
      | inl (_, q) ↦
          let email_set : u.email ≡ normalize_email lower email = ground (arith, q, h) in
          (ground (arith, q, h), email_set, ground (arith, q, h), ground (arith, q, email_set))
    ]

module _ {S : Type 0} (lower : Char → Char) (o : Orm AllowedUser S)
    (laws : OrmLaws user_key o) where
  -- No two users have one address.
  abbrev pub EmailsDiffer : S → Type 0
  EmailsDiffer s =
      (i j : String) (a b : AllowedUser)
      → laws.rows i s ≡ some a
      → laws.rows j s ≡ some b
      → a.email ≡ b.email
      → i ≡ j

  abbrev pub IsFreeFor : AllowedUser → S → Type 0
  IsFreeFor u s =
      (j : String) (b : AllowedUser) → laws.rows j s ≡ some b → b.email ≡ u.email → j ≡ u.id

  pub Wrote-EmailsDiffer :
      (u : AllowedUser) (s : S) (p : Result (Unit {0}) × S)
      → Wrote user_key laws.rows u s p
      → IsFreeFor u s
      → EmailsDiffer s
      → EmailsDiffer p.1
  Wrote-EmailsDiffer u s (err e, s') w free h i j a b ha hb same =
      h i j a b (sym (w i) ∙ ha) (sym (w j) ∙ hb) same
  Wrote-EmailsDiffer u s (ok _, s') w free h i j a b ha hb same =
      ground
        (arith, w i, w j, ha, hb, same, ==_iff u.id i, ==_iff u.id j, free i a, free j b, h i j a b)
