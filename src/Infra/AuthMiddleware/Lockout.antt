-- ===== src/Infra/AuthMiddleware/Lockout.antt =====
-- The middleware over the memory session store, once the sessions of a user have been removed.
use zensor_server.Prelude.{
  String, Bool, true, false, ◌≡◌, refl, ◌≢◌, inl, inr, Option-cases, Bool-cases, ◌==◌, ==_refl,
  string_eq, has_prefix, trim_prefix, trim_space, not, Time, Action, Result, ok, err, if◌then◌else◌,
  arith,
}
use zensor_server.SharedKernel.Session.{Session}
use zensor_server.SharedKernel.AuthService.{
  SessionPort, get_session, session_result, remove_allowed_user, revoke_sessions,
}
use zensor_server.SharedKernel.ApiKey.{ApiKey}
use zensor_server.Infra.SessionStore as Sessions
use zensor_server.Infra.SessionStore.{Store}
use zensor_server.Infra.SessionStore.Index.{Reachable, revoked}
use zensor_server.Infra.SessionStore.Revocation.{get_outcome, delete_by_user_exact}
use zensor_server.Infra.AuthMiddleware.{
  Request, Identity, by_session, by_api_key, anonymous, resolve_session, resolve_raw_key,
  resolve_api_key, identify, resolved, or_api_key,
}

-- The memory session store as the service sees it: only `Get` can fail.
abbrev pub memory_port : Time → SessionPort Store
memory_port now = record {
  get = Sessions.get now;
  create = λ session s. (ok tt, Sessions.create session s);
  delete = λ id s. (ok tt, Sessions.delete id s);
  delete_by_user = λ user s. (ok tt, Sessions.delete_by_user user s);
}

-- The resolver of the middleware: `GetSession` over the memory session store at an instant.
abbrev pub memory_sessions : Time → String → Store → Result Session × Store
memory_sessions now = get_session (memory_port now)

-- The request is not taken for one of the user's sessions.
abbrev pub IsNotUser : String → Identity → Type 0
IsNotUser user (by_session session) = session.user_id ≢ user
IsNotUser user _ = Unit

resolved-IsNotUser :
    (user : String) (o : Result Session × Store)
    → ((session : Session) → o.0 ≡ ok session → session.user_id ≢ user)
    → IsNotUser user (resolved by_session o).0
resolved-IsNotUser user (ok session, s) h = h session refl
resolved-IsNotUser user (err _, s) h = tt

session_result-ok :
    (result : Result Session) {session : Session}
    → session_result result ≡ ok session
    → result ≡ ok session
session_result-ok (ok x) h = h
session_result-ok (err e) h = absurd (ground (arith, h))

get-revoked :
    (now : Time) (user cookie : String) (s : Store) (session : Session)
    → Reachable s
    → (Sessions.get now cookie (Sessions.delete_by_user user s)).0 ≡ ok session
    → session.user_id ≢ user
get-revoked now user cookie s session h got same =
    elim (get_outcome now cookie (Sessions.delete_by_user user s) (revoked user s h)) [
      | inr (gone, _) ↦ ground (arith, gone, got)
      | inl (x, stored, _, found) ↦
          ground
            (arith, found, got, same, stored, delete_by_user_exact s user cookie h, ==_refl user)
    ]

module _ (api_keys : String → Store → Result ApiKey × Store) (user : String) where
  resolved_key-IsNotUser : (o : Result ApiKey × Store) → IsNotUser user (resolved by_api_key o).0
  resolved_key-IsNotUser (ok key, s) = tt
  resolved_key-IsNotUser (err _, s) = tt

  either-IsNotUser :
      (b : Bool) (o o' : Identity × Store)
      → IsNotUser user o.0
      → IsNotUser user o'.0
      → IsNotUser user (if b then o else o').0
  either-IsNotUser true o o' h k = h
  either-IsNotUser false o o' h k = k

  resolve_raw_key-IsNotUser :
      (now : Time) (raw_key : String) (s : Store)
      → IsNotUser user (resolve_raw_key (memory_sessions now) api_keys raw_key s).0
  unfolding resolve_raw_key
  resolve_raw_key-IsNotUser now raw_key s =
      either-IsNotUser (raw_key == "") (anonymous, s) (resolved by_api_key (api_keys raw_key s)) tt
        (resolved_key-IsNotUser (api_keys raw_key s))

  resolve_api_key-IsNotUser :
      (now : Time) (r : Request) (s : Store)
      → IsNotUser user (resolve_api_key (memory_sessions now) api_keys r s).0
  unfolding resolve_api_key
  resolve_api_key-IsNotUser now r s =
      let raw_key = trim_space (trim_prefix r.authorization "Bearer ") in
      either-IsNotUser (not (has_prefix r.authorization "Bearer ")) (anonymous, s)
        (resolve_raw_key (memory_sessions now) api_keys raw_key s) tt
        (resolve_raw_key-IsNotUser now raw_key s)

  or_api_key-IsNotUser :
      (now : Time) (r : Request) (o : Identity × Store)
      → IsNotUser user o.0
      → IsNotUser user (or_api_key (memory_sessions now) api_keys r o).0
  or_api_key-IsNotUser now r (by_session session, s) h = h
  or_api_key-IsNotUser now r (by_api_key key, s) h = tt
  or_api_key-IsNotUser now r (anonymous, s) h = resolve_api_key-IsNotUser now r s

  resolve_session-IsNotUser :
      (now : Time) (r : Request) (s : Store)
      → Reachable s
      → IsNotUser user
          (resolve_session (memory_sessions now) api_keys r (Sessions.delete_by_user user s)).0
  unfolding resolve_session get_session
  resolve_session-IsNotUser now r s h = elim (Option-cases r.session_cookie) [
    | inl e ↦ rw (e, resolve_session) tt
    | inr (cookie, e) ↦ elim (Bool-cases (cookie == "")) [
      | inl f ↦ rw (e, f, resolve_session) tt
      | inr f ↦
          rw (e, f, resolve_session)
            (resolved-IsNotUser user (memory_sessions now cookie (Sessions.delete_by_user user s))
              (λ session q.
                get-revoked now user cookie s session h (
                  session_result-ok (Sessions.get now cookie (Sessions.delete_by_user user s)).0
                    q)))
    ]
  ]

  -- After `DeleteByUser` in a store that the methods reach, no request is taken for a session of that
  -- user, whatever cookie it sends and whenever it comes.
  pub revoked_user_locked_out :
      (now : Time) (s : Store) (r : Request)
      → Reachable s
      → IsNotUser user
          (identify (memory_sessions now) api_keys r (Sessions.delete_by_user user s)).0
  unfolding identify
  revoked_user_locked_out now s r h =
      or_api_key-IsNotUser now r
        (resolve_session (memory_sessions now) api_keys r (Sessions.delete_by_user user s))
        (resolve_session-IsNotUser now r s h)

  removed-sessions :
      {S : Type 0} (now : Time) (o : Result (Unit {0}) × S) (c : Store)
      → (revoke_sessions (memory_port now) user o c).0 ≡ ok tt
      → (revoke_sessions (memory_port now) user o c).1.1 ≡ Sessions.delete_by_user user c
  removed-sessions now (ok _, s) c h = refl
  removed-sessions now (err e, s) c h = cc

  -- Once `RemoveAllowedUser` has succeeded over a memory session store that its methods reach, no request is taken for a
  -- session of the removed user, whatever cookie it sends and whenever it comes.
  pub removed_user_locked_out :
      {S : Type 0} (delete_row : String → Action S (Unit {0})) (now later : Time) (s : S)
      (c : Store) (r : Request)
      → Reachable c
      → (remove_allowed_user (memory_port now) delete_row user (s, c)).0 ≡ ok tt
      → let (_, c') = (remove_allowed_user (memory_port now) delete_row user (s, c)).1 in
        IsNotUser user (identify (memory_sessions later) api_keys r c').0
  unfolding remove_allowed_user
  removed_user_locked_out delete_row now later s c r reached h =
      rw (removed-sessions now (delete_row user s) c h) (revoked_user_locked_out later c r reached)
