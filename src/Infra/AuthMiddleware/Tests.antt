-- ===== src/Infra/AuthMiddleware/Tests.antt =====
-- Requests through the middleware, and its theorems at them.
use zensor_server.Prelude.{
  String, false, not, ◌&&◌, ◌||◌, ◌≡◌, refl, inl, none, some, has_prefix, string_eq, lookup, insert,
  Result, err, sentinel, api_key_not_found,
}
use zensor_server.Prelude.{Action, List, [], ◌∷◌, ok}
use zensor_server.SharedKernel.Session.{Session, is_expired}
use zensor_server.SharedKernel.AuthService.{get_session, remove_allowed_user}
use zensor_server.SharedKernel.ApiKey.{ApiKey}
use zensor_server.Infra.SessionStore as Sessions
use zensor_server.Infra.SessionStore.{Store, new_store}
use zensor_server.Infra.SessionStore.Index.{Reachable, started, created}
use zensor_server.Infra.AuthMiddleware.{
  Request, Identity, refused, admin_path_prefix, is_public_path, strip_headers, set_headers, decide,
  identify, resolve_session, middleware,
}
use zensor_server.Infra.AuthMiddleware.Access.{
  is_admin, is_known, is_served, NamesIdentity, Identifies, middleware_lem,
}
use zensor_server.Infra.AuthMiddleware.Lockout.{
  memory_sessions, IsNotUser, removed_user_locked_out, memory_port,
}

abbrev ann : Session
ann = record {
  id = "s1";
  user_id = "ann";
  email = "ann@example.com";
  name = "Ann";
  is_admin = false;
  created_at = 1;
  expires_at = 50;
}

abbrev store : Store
store = Sessions.create ann new_store

store-Reachable : Reachable store
unfolding new_store lookup
store-Reachable = created ann new_store (inl refl) started

abbrev no_keys : String → Store → Result ApiKey × Store
no_keys raw s = (err (sentinel api_key_not_found), s)

abbrev list_users : Request
list_users = record {
  path = "/v1/admin/users";
  session_cookie = some "s1";
  authorization = "";
  user_id = some "root";
  user_name = none;
  user_email = none;
}

not_an_administrator :
    (middleware (memory_sessions 9) no_keys list_users store).0
    ≡ refused 403 "admin access required"
unfolding middleware identify resolve_session strip_headers set_headers decide is_public_path
    get_session Sessions.create Sessions.get new_store Sessions.ids_of lookup insert is_expired
not_an_administrator = refl

middleware_lem_example :
    let (reply, _) = middleware (memory_sessions 9) no_keys list_users store in
    (identity : Identity) × Identifies (memory_sessions 9) no_keys list_users store identity
    × (is_served reply ≡ (
        is_public_path "/v1/admin/users"
        || (is_known identity
            && (is_admin identity || not (has_prefix "/v1/admin/users" admin_path_prefix)))))
    × NamesIdentity identity reply
middleware_lem_example = middleware_lem (memory_sessions 9) no_keys list_users store

abbrev allowed : String → Action (List String) (Unit {0})
allowed id users = (ok tt, [])

removal_succeeds : (remove_allowed_user (memory_port 3) allowed "ann" ("ann" ∷ [], store)).0 ≡ ok tt
unfolding remove_allowed_user
removal_succeeds = refl

removed_user_locked_out_example :
    let (_, c') = (remove_allowed_user (memory_port 3) allowed "ann" ("ann" ∷ [], store)).1 in
    IsNotUser "ann" (identify (memory_sessions 9) no_keys list_users c').0
removed_user_locked_out_example =
    removed_user_locked_out no_keys "ann" allowed 3 9 ("ann" ∷ []) store list_users store-Reachable
      removal_succeeds
