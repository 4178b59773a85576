-- ===== src/Infra/AuthMiddleware.antt =====
-- internal/infra/httpserver/auth.go: who a request is from, and whether it is served. The two
-- resolvers may change the store `S` that they read. The span attributes are left out.
pub mod Access
pub mod Lockout
mod Tests
use zensor_server.Prelude.{
  ℕ, String, Bool, true, false, not, ◌&&◌, ◌||◌, Option, none, some, List, [], ◌∷◌, contains,
  contains_func, ◌==◌, string_eq, has_prefix, trim_prefix, trim_space, if◌then◌else◌, Result, ok,
  err,
}
use zensor_server.SharedKernel.Session.{Session}
use zensor_server.SharedKernel.ApiKey.{ApiKey}

-- What the middleware reads of a request: the path, the session cookie, the `Authorization` header
-- (empty where it is missing) and the `X-User-*` headers.
pub record Request : Type 0 where
  pub path : String
  pub session_cookie : Option String
  pub authorization : String
  pub user_id : Option String
  pub user_name : Option String
  pub user_email : Option String

-- `next.ServeHTTP`, or `ReplyWithError`.
pub data Reply : Type 0 where
  served : Request → Reply
  refused : ℕ → String → Reply

pub data Identity : Type 0 where
  by_session : Session → Identity
  by_api_key : ApiKey → Identity
  anonymous : Identity

abbrev pub public_path_prefixes : List String
public_path_prefixes = "/auth/" ∷ "/ui/" ∷ []

abbrev pub public_exact_paths : List String
public_exact_paths = "/healthz" ∷ "/metrics" ∷ []

abbrev pub admin_path_prefix : String
admin_path_prefix = "/v1/admin/"

unfoldable pub is_public_path : String → Bool
is_public_path path =
    contains public_exact_paths path || contains_func (has_prefix path) public_path_prefixes

-- The three calls of `Header.Del`.
unfoldable pub strip_headers : Request → Request
strip_headers r = record r { user_id = none; user_name = none; user_email = none }

-- The calls of `Header.Set`.
unfoldable pub set_headers : Identity → Request → Request
set_headers (by_session session) r = record r {
  user_id = some session.user_id;
  user_name = some session.name;
  user_email = some session.email;
}
set_headers (by_api_key key) r = record r {
  user_id = some key.id;
  user_name = some key.name;
  user_email = some "";
}
set_headers anonymous r = r

-- The tests after the headers have been set.
abbrev pub admit : Identity → Request → Reply
admit anonymous r = refused 401 "authentication required"
admit (by_api_key key) r =
    if has_prefix r.path admin_path_prefix then refused 403 "admin access required" else served r
admit (by_session session) r =
    if has_prefix r.path admin_path_prefix && not session.is_admin
    then refused 403 "admin access required"
    else served r

unfoldable pub decide : Identity → Request → Reply
decide identity r = if is_public_path r.path then served r else admit identity r

-- A resolver's answer, once its error has been dropped.
abbrev pub resolved : {A S : Type 0} → (A → Identity) → Result A × S → Identity × S
resolved make (ok a, s) = (make a, s)
resolved make (err _, s) = (anonymous, s)

module _ {S : Type 0} (sessions : String → S → Result Session × S)
    (api_keys : String → S → Result ApiKey × S) where
  unfoldable pub resolve_session : Request → S → Identity × S
  resolve_session r s = elim r.session_cookie [
    | none ↦ (anonymous, s)
    | some cookie ↦ if cookie == "" then (anonymous, s) else resolved by_session (sessions cookie s)
  ]

  -- `resolveAPIKey` once the prefix has been cut off.
  unfoldable pub resolve_raw_key : String → S → Identity × S
  resolve_raw_key raw_key s =
      if raw_key == "" then (anonymous, s) else resolved by_api_key (api_keys raw_key s)

  unfoldable pub resolve_api_key : Request → S → Identity × S
  resolve_api_key r s =
      if not (has_prefix r.authorization "Bearer ")
      then (anonymous, s)
      else resolve_raw_key (trim_space (trim_prefix r.authorization "Bearer ")) s

  -- The API key is only looked at if there is no session.
  abbrev or_api_key : Request → Identity × S → Identity × S
  or_api_key r (anonymous, s) = resolve_api_key r s
  or_api_key r (by_session session, s) = (by_session session, s)
  or_api_key r (by_api_key key, s) = (by_api_key key, s)

  unfoldable pub identify : Request → S → Identity × S
  identify r s = or_api_key r (resolve_session r s)

  -- `NewAuthMiddleware`
  unfoldable pub middleware : Request → S → Reply × S
  middleware r s =
      let (identity, s') = identify (strip_headers r) s in
      (decide identity (set_headers identity (strip_headers r)), s')
