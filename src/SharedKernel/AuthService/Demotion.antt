-- ===== src/SharedKernel/AuthService/Demotion.antt =====
-- The rights of a session after those of its user have been taken back.
use Prim.Native.Char.{Char}
use zensor_server.Prelude.{
  ℕ, ◌+◌, ◌≤◌, ◌≡◌, ◌≢◌, ap, ◌∙◌, Time, String, Bool, true, false, after, ◌==◌, ==_iff, string_eq,
  some, Result, ok, arith,
}
use zensor_server.SharedKernel.Session.{Session}
use zensor_server.SharedKernel.ApiKey.{ApiKey}
use zensor_server.SharedKernel.AllowedUser.{AllowedUser}
use zensor_server.SharedKernel.AllowedUserRepository as Repository
use zensor_server.SharedKernel.AuthService.{
  OauthIdentity, handle_callback, update_allowed_user, beside_sessions,
}
use zensor_server.SharedKernel.AuthService.Admins.{update_allowed_user-ok}
use zensor_server.SharedKernel.AuthService.Login.{
  user_key, repository, query_result-ok, login_lasts,
}
use zensor_server.Infra.Orm.{Orm, OrmLaws, Wrote-wrap, Wrote-ok}
use zensor_server.Infra.SessionStore.{Store}
use zensor_server.Infra.AuthMiddleware.{
  Request, served, by_session, strip_headers, set_headers, decide, identify, resolve_session,
  middleware,
}
use zensor_server.Infra.AuthMiddleware.Lockout.{memory_port, memory_sessions}

module _ (api_keys : String → Store → Result ApiKey × Store) where
  -- A request with the cookie of an administrator's session is served.
  administrator-served :
      (now : Time) (r : Request) (cookie : String) (c : Store) (session : Session)
      → r.session_cookie ≡ some cookie
      → cookie ≢ ""
      → (memory_sessions now cookie c).0 ≡ ok session
      → session.is_admin ≡ true
      → (middleware (memory_sessions now) api_keys r c).0
        ≡ served (set_headers (by_session session) (strip_headers r))
  unfolding middleware identify resolve_session strip_headers set_headers decide
  administrator-served now r cookie c session sent given found admin =
      ground (arith, sent, given, found, admin, ==_iff cookie "")

module _ {S : Type 0} (lower : Char → Char) (o : Orm AllowedUser S)
    (laws : OrmLaws user_key o) where
  updated_row :
      (now : Time) (id : String) (is_admin : Bool) (s : S) {user : AllowedUser}
      → (update_allowed_user lower (repository lower o) now id is_admin s).0 ≡ ok user
      → (laws.rows id (update_allowed_user lower (repository lower o) now id is_admin s).1
          ≡ some user)
        × (user.is_admin ≡ is_admin)
  unfolding Repository.get_by_id Repository.update
  updated_row now id is_admin s h =
      let (old, found, made, stored, rest) =
        update_allowed_user-ok lower (repository lower o) now id is_admin s h in
      let u : AllowedUser = record old { is_admin = is_admin; updated_at = now } in
      let is_asked = λ (x : AllowedUser). x.id == id in
      let row = laws.where_holds is_asked s (query_result-ok (o.first_where is_asked s) found) in
      let named : old.id ≡ id = (==_iff old.id id).0 row.0 in
      let wrote =
        Wrote-ok user_key laws.rows u s (Repository.update lower o u s)
          (Wrote-wrap user_key laws.rows "updating allowed user in database" u s (o.save u s)
            (laws.save_writes u s))
          stored id in
      (rw rest (ground (arith, wrote, made, ==_iff old.id id, named)), ap (λ x. x.is_admin) made)

  -- An administrator's session outlives the rights of its user: when `HandleCallback` has opened it
  -- over a memory session store, and `UpdateAllowedUser` has then taken the rights back at any
  -- instant, the stored user is no administrator, and every later request with the cookie is still served in
  -- the world that `UpdateAllowedUser` left, also on the administration paths, until the session's
  -- time to live has passed.
  pub demoted_admin_still_served :
      (api_keys : String → Store → Result ApiKey × Store) (ttl : ℕ) (at now demoted later : Time)
      (random : Result String) (answer : Result OauthIdentity) (s : S) (c : Store) (r : Request)
      {session : Session} {user : AllowedUser}
      → let users = repository lower o in
        let (result, w1) =
          handle_callback lower ttl users (memory_port now) at now random answer (s, c) in
        let (updated, (s2, c2)) =
          beside_sessions (update_allowed_user lower users demoted session.user_id false) w1 in
        result ≡ ok session
        → session.is_admin ≡ true
        → session.id ≢ ""
        → updated ≡ ok user
        → demoted ≤ later
        → after later (now + ttl) ≡ false
        → r.session_cookie ≡ some session.id
        → (laws.rows session.user_id s2 ≡ some user)
          × (user.is_admin ≡ false)
          × ((middleware (memory_sessions later) api_keys r c2).0
              ≡ served (set_headers (by_session session) (strip_headers r)))
  demoted_admin_still_served api_keys ttl at now demoted later random answer s c r {session} h admin
        named taken_back order live sent =
      let users = repository lower o in
      let w = (handle_callback lower ttl users (memory_port now) at now random answer (s, c)).1 in
      let (stored, no_admin) = updated_row demoted session.user_id false w.0 taken_back in
      (
        stored,
        no_admin,
        administrator-served api_keys later r session.id w.1 session sent named
            (login_lasts lower ttl users at now later random answer s c h ∙ ground (arith, live))
            admin,
      )
