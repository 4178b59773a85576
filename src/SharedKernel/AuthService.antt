-- ===== src/SharedKernel/AuthService.antt =====
-- internal/shared_kernel/usecases/auth_service.go: the login, the sessions of a user, and the changes of
-- the allowed users. `S` is the store of allowed users, and `C` that of sessions. The provider's
-- answer and the random identifier are arguments; `ListAllowedUsers` and `AuthCodeURL` pass their calls on.
pub mod Login
pub mod Admins
pub mod Demotion
pub mod Addresses
pub mod Uniqueness
pub mod Bootstrap
mod Tests
use Prim.Native.Char.{Char}
use zensor_server.Prelude.{
  ℕ, ◌+◌, Time, Bool, true, false, not, ◌==◌, string_eq, List, [], ◌∷◌, String, if◌then◌else◌,
  Result, ok, err, is_error, wrap, wrap_error, sentinel, session_not_found, allowed_user_not_found,
  allowed_user_duplicated, email_not_allowed, email_not_verified, Action,
}
use zensor_server.SharedKernel.Session.{Session}
use zensor_server.SharedKernel.AllowedUser.{
  AllowedUser, record_login, normalize_email, with_email, with_is_admin, build,
}

-- What the service calls of `SessionStore`.
pub record SessionPort (C : Type 0) : Type 0 where
  pub get : String → C → Result Session × C
  pub create : Session → Action C (Unit {0})
  pub delete : String → Action C (Unit {0})
  pub delete_by_user : String → Action C (Unit {0})

-- `AllowedUserRepository`
pub record UserPort (S : Type 0) : Type 0 where
  pub create : AllowedUser → Action S (Unit {0})
  pub get_by_id : String → S → Result AllowedUser
  pub get_by_email : String → S → Result AllowedUser
  pub update : AllowedUser → Action S (Unit {0})
  pub delete : String → Action S (Unit {0})

pub record OauthIdentity : Type 0 where
  pub email : String
  pub name : String
  pub email_verified : Bool

abbrev pub session_result : Result Session → Result Session
session_result (ok session) = ok session
session_result (err e) =
    if is_error e session_not_found
    then err (sentinel session_not_found)
    else err (wrap "getting session" e)

module _ {C : Type 0} (sessions : SessionPort C) where
  unfoldable pub get_session : String → C → Result Session × C
  get_session id c = let (result, c') = sessions.get id c in (session_result result, c')

  unfoldable pub logout : String → Action C (Unit {0})
  logout id c =
      let (result, c') = sessions.delete id c in (wrap_error "deleting session" result, c')

  -- `RemoveAllowedUser` once the row of the user has been deleted, or not.
  abbrev pub revoke_sessions :
      {S : Type 0} → String → Result (Unit {0}) × S → C → Result (Unit {0}) × (S × C)
  revoke_sessions id (err e, s) c = (err (wrap "deleting allowed user" e), (s, c))
  revoke_sessions id (ok _, s) c =
      let (result, c') = sessions.delete_by_user id c in
      (wrap_error "revoking user sessions" result, (s, c'))

  -- `RemoveAllowedUser`, with `Delete` of the repository of allowed users.
  unfoldable pub remove_allowed_user :
      {S : Type 0} → (String → Action S (Unit {0})) → String → Action (S × C) (Unit {0})
  remove_allowed_user delete_row id (s, c) = revoke_sessions id (delete_row id s) c

-- A method that calls the repository only, in the world of the service with the store of sessions.
abbrev pub beside_sessions : {S C A : Type 0} → Action S A → Action (S × C) A
beside_sessions method (s, c) = let (result, s') = method s in (result, (s', c))

-- The session that `HandleCallback` creates.
unfoldable pub session_for : ℕ → Time → String → String → AllowedUser → Session
session_for ttl now id name user = record {
  id = id;
  user_id = user.id;
  email = user.email;
  name = name;
  is_admin = user.is_admin;
  created_at = now;
  expires_at = now + ttl;
}

module _ {S C : Type 0} (lower : Char → Char) (ttl : ℕ) (users : UserPort S)
    (sessions : SessionPort C) where
  abbrev pub opened : S → Session → Result (Unit {0}) × C → Result Session × (S × C)
  opened s session (ok _, c) = (ok session, (s, c))
  opened s session (err e, c) = (err (wrap "creating session" e), (s, c))

  -- From `generateSessionID` on, with its outcome.
  abbrev pub open_session :
      Time → Result String → String → AllowedUser → S → C → Result Session × (S × C)
  open_session now (err e) name user s c = (err (wrap "generating session id" e), (s, c))
  open_session now (ok id) name user s c =
      let session = session_for ttl now id name user in opened s session (sessions.create session c)

  abbrev pub after_record :
      Time
      → Result String
      → String
      → AllowedUser
      → Result (Unit {0}) × S
      → C
      → Result Session × (S × C)
  after_record now random name user (err e, s) c = (err (wrap "recording login" e), (s, c))
  after_record now random name user (ok _, s) c = open_session now random name user s c

  abbrev pub log_in :
      Time → Time → Result String → String → Result AllowedUser → Action (S × C) Session
  log_in at now random name (err e) w =
      if is_error e allowed_user_not_found
      then (err (sentinel email_not_allowed), w)
      else (err (wrap "looking up allowed user" e), w)
  log_in at now random name (ok user) (s, c) =
      let user' = record_login at name user in
      after_record now random name user' (users.update user' s) c

  -- `HandleCallback`, with the answer of `ExchangeCode`, and the instants at which the login is
  -- recorded and the session created.
  unfoldable pub handle_callback :
      Time → Time → Result String → Result OauthIdentity → Action (S × C) Session
  handle_callback at now random (err e) w = (err (wrap "exchanging authorization code" e), w)
  handle_callback at now random (ok identity) (s, c) =
      if not identity.email_verified
      then (err (sentinel email_not_verified), (s, c))
      else log_in at now random identity.name
          (users.get_by_email (normalize_email lower identity.email) s) (s, c)

module _ {S : Type 0} (lower : Char → Char) (users : UserPort S) where
  abbrev pub saved : String → AllowedUser → Result (Unit {0}) × S → Result AllowedUser × S
  saved context user (ok _, s) = (ok user, s)
  saved context user (err e, s) = (err (wrap context e), s)

  -- `AddAllowedUser` once the user has been built and looked up.
  abbrev pub add_checked : AllowedUser → Result AllowedUser → Action S AllowedUser
  add_checked user (ok _) s = (err (sentinel allowed_user_duplicated), s)
  add_checked user (err e) s =
      if is_error e allowed_user_not_found
      then saved "creating allowed user" user (users.create user s)
      else (err (wrap "checking existing allowed user" e), s)

  abbrev pub add_built : Result AllowedUser → Action S AllowedUser
  add_built (err e) s = (err (wrap "building allowed user" e), s)
  add_built (ok user) s = add_checked user (users.get_by_email user.email s) s

  -- `AddAllowedUser`, with the generated identifier.
  unfoldable pub add_allowed_user : String → Time → String → Bool → Action S AllowedUser
  add_allowed_user uuid now email is_admin s =
      add_built (build uuid now (with_email lower email ∷ with_is_admin is_admin ∷ [])) s

  abbrev pub set_admin : Time → Bool → Result AllowedUser → Action S AllowedUser
  set_admin now is_admin (err e) s =
      if is_error e allowed_user_not_found
      then (err (sentinel allowed_user_not_found), s)
      else (err (wrap "getting allowed user" e), s)
  set_admin now is_admin (ok user) s =
      let user' = record user { is_admin = is_admin; updated_at = now } in
      saved "updating allowed user" user' (users.update user' s)

  unfoldable pub update_allowed_user : Time → String → Bool → Action S AllowedUser
  update_allowed_user now id is_admin s = set_admin now is_admin (users.get_by_id id s) s

  abbrev pub done : String → Result (Unit {0}) × S → Result (Unit {0}) × S
  done context (result, s) = (wrap_error context result, s)

  abbrev pub bootstrap_built : Result AllowedUser → Action S (Unit {0})
  bootstrap_built (err e) s = (err (wrap "building bootstrap admin" e), s)
  bootstrap_built (ok user) s = done "creating bootstrap admin" (users.create user s)

  -- `BootstrapAdmin` once the user has been looked up.
  abbrev pub bootstrap_found : String → Time → String → Result AllowedUser → Action S (Unit {0})
  bootstrap_found uuid now normalized (err e) s =
      if is_error e allowed_user_not_found
      then bootstrap_built (build uuid now (with_email lower normalized ∷ with_is_admin true ∷ []))
          s
      else (err (wrap "getting bootstrap admin" e), s)
  bootstrap_found uuid now normalized (ok existing) s =
      if existing.is_admin
      then (ok tt, s)
      else done "promoting bootstrap admin"
          (users.update (record existing { is_admin = true; updated_at = now }) s)

  unfoldable pub bootstrap_admin : String → Time → String → Action S (Unit {0})
  bootstrap_admin uuid now email s =
      let normalized = normalize_email lower email in
      if email == ""
      then (ok tt, s)
      else bootstrap_found uuid now normalized (users.get_by_email normalized s) s
