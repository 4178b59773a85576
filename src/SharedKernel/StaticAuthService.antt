-- ===== src/SharedKernel/StaticAuthService.antt =====
-- internal/shared_kernel/usecases/static_auth_service.go: the login of the one administrator that the
-- configuration names. `GetSession` and `Logout` have the bodies of those of the authentication service.
use zensor_server.Prelude.{
  ℕ, ◌+◌, Time, true, ◌&&◌, ◌==◌, string_eq, String, if◌then◌else◌, Result, ok, err, wrap, sentinel,
  invalid_credentials, Action,
}
use zensor_server.SharedKernel.Session.{Session}
use zensor_server.SharedKernel.AuthService.{SessionPort}

pub record Credentials : Type 0 where
  pub username : String
  pub password : String

abbrev pub static_admin_user_id : String
static_admin_user_id = "static-admin"

unfoldable pub static_session : ℕ → Time → String → Session
static_session ttl now id = record {
  id = id;
  user_id = static_admin_user_id;
  email = "admin@localhost";
  name = "Admin";
  is_admin = true;
  created_at = now;
  expires_at = now + ttl;
}

module _ {C : Type 0} (ttl : ℕ) (configured : Credentials) (sessions : SessionPort C) where
  abbrev pub opened : Session → Result (Unit {0}) × C → Result Session × C
  opened session (ok _, c) = (ok session, c)
  opened session (err e, c) = (err (wrap "creating session" e), c)

  abbrev pub open_session : Time → Result String → Action C Session
  open_session now (err e) c = (err (wrap "generating session id" e), c)
  open_session now (ok id) c =
      let session = static_session ttl now id in opened session (sessions.create session c)

  -- `Login`, with the outcome of `generateSessionID`. Comparing in constant time tells whether the bytes agree.
  unfoldable pub login : Time → Result String → Credentials → Action C Session
  login now random given c =
      if (given.username == configured.username) && (given.password == configured.password)
      then open_session now random c
      else (err (sentinel invalid_credentials), c)
