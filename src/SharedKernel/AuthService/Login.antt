-- ===== src/SharedKernel/AuthService/Login.antt =====
-- Who gets a session, over the repository of allowed users and the memory session store.
use Prim.Native.Char.{Char}
use zensor_server.Prelude.{
  ℕ, ◌+◌, ◌≡◌, ◌≢◌, refl, sym, subst, ap, ◌∙◌, inl, inr, Time, String, true, after, Bool-cases,
  ◌==◌, ==_refl, string_eq, none, if◌then◌else◌, Result, ok, err, lookup-insert, wrap_error,
  sentinel, session_not_found, arith,
}
use zensor_server.SharedKernel.Session.{Session, is_expired}
use zensor_server.SharedKernel.AllowedUser.{AllowedUser, record_login, normalize_email}
use zensor_server.SharedKernel.AllowedUserRepository as Repository
use zensor_server.SharedKernel.AllowedUserRepository.{query_result}
use zensor_server.SharedKernel.AuthService.{
  SessionPort, UserPort, OauthIdentity, get_session, session_result, remove_allowed_user,
  revoke_sessions, session_for, opened, after_record, log_in, handle_callback,
}
use zensor_server.Infra.Orm.{Orm, OrmLaws, Deleted}
use zensor_server.Infra.SessionStore as Sessions
use zensor_server.Infra.SessionStore.{Store}
use zensor_server.Infra.AuthMiddleware.Lockout.{memory_port}

abbrev pub user_key : AllowedUser → String
user_key u = u.id

-- The repository as the service sees it.
abbrev pub repository : {S : Type 0} → (Char → Char) → Orm AllowedUser S → UserPort S
repository lower o = record {
  create = Repository.create lower o;
  get_by_id = Repository.get_by_id lower o;
  get_by_email = Repository.get_by_email lower o;
  update = Repository.update lower o;
  delete = Repository.delete lower o;
}

pub query_result-ok : (r : Result AllowedUser) {u : AllowedUser} → query_result r ≡ ok u → r ≡ ok u
unfolding query_result
query_result-ok (ok u) h = h
query_result-ok (err e) h = absurd (ground (arith, h))

module _ {S C : Type 0} (lower : Char → Char) (ttl : ℕ) (users : UserPort S)
    (sessions : SessionPort C) where
  opened-ok :
      (s : S) (session : Session) (p : Result (Unit {0}) × C) {found : Session}
      → (opened lower ttl users sessions s session p).0 ≡ ok found
      → (found ≡ session)
        × (p.0 ≡ ok tt)
        × ((opened lower ttl users sessions s session p).1 ≡ (s, p.1))
  opened-ok s session (ok _, c) h = (ground (arith, h), refl, refl)
  opened-ok s session (err e, c) h = cc

  after_record-ok :
      (now : Time) (random : Result String) (name : String) (user : AllowedUser)
      (p : Result (Unit {0}) × S) (c : C) {session : Session}
      → (after_record lower ttl users sessions now random name user p c).0 ≡ ok session
      → (p.0 ≡ ok tt)
        × ((id : String) × (random ≡ ok id)
            × (session ≡ session_for ttl now id name user)
            × ((sessions.create session c).0 ≡ ok tt)
            × ((after_record lower ttl users sessions now random name user p c).1
                ≡ (p.1, (sessions.create session c).1)))
  after_record-ok now random name user (err e, s) c h = cc
  after_record-ok now (err e) name user (ok _, s) c h = cc
  after_record-ok now (ok id) name user (ok _, s) c h =
      let session = session_for ttl now id name user in
      let (same, created, rest) = opened-ok s session (sessions.create session c) h in
      (
        refl,
        (
          id,
          refl,
          same,
          subst (λ x. (sessions.create x c).0 ≡ ok tt) (sym same) created,
          subst
              (λ x.
                (opened lower ttl users sessions s session (sessions.create session c)).1
                ≡ (s, (sessions.create x c).1))
              (sym same) rest,
        ),
      )

  log_in-ok :
      (at now : Time) (random : Result String) (name : String) (found : Result AllowedUser) (s : S)
      (c : C) {session : Session}
      → (log_in lower ttl users sessions at now random name found (s, c)).0 ≡ ok session
      → (user : AllowedUser) × (id : String) × (found ≡ ok user)
        × (random ≡ ok id)
        × (session ≡ session_for ttl now id name (record_login at name user))
        × ((users.update (record_login at name user) s).0 ≡ ok tt)
        × ((sessions.create session c).0 ≡ ok tt)
        × ((log_in lower ttl users sessions at now random name found (s, c)).1
            ≡ ((users.update (record_login at name user) s).1, (sessions.create session c).1))
  log_in-ok at now random name (err e) s c h = absurd (ground (arith, h))
  log_in-ok at now random name (ok user) s c h =
      let user' = record_login at name user in
      let (updated, (id, drawn, made, created, rest)) =
        after_record-ok now random name user' (users.update user' s) c h in
      (user, id, refl, drawn, made, updated, created, rest)

  -- Whenever `HandleCallback` returns a session, the provider had verified the address, the user
  -- found under the normalized address was stored with this login recorded, and the session, of
  -- that user and with that user's rights, was created; nothing else has changed.
  pub handle_callback-ok :
      (at now : Time) (random : Result String) (answer : Result OauthIdentity) (s : S) (c : C)
      {session : Session}
      → (handle_callback lower ttl users sessions at now random answer (s, c)).0 ≡ ok session
      → (identity : OauthIdentity) × (user : AllowedUser) × (id : String) × (answer ≡ ok identity)
        × (identity.email_verified ≡ true)
        × (users.get_by_email (normalize_email lower identity.email) s ≡ ok user)
        × (random ≡ ok id)
        × (session ≡ session_for ttl now id identity.name (record_login at identity.name user))
        × ((users.update (record_login at identity.name user) s).0 ≡ ok tt)
        × ((sessions.create session c).0 ≡ ok tt)
        × ((handle_callback lower ttl users sessions at now random answer (s, c)).1 ≡ (
          (users.update (record_login at identity.name user) s).1,
          (sessions.create session c).1,
        ))
  unfolding handle_callback
  handle_callback-ok at now random (err e) s c h = cc
  handle_callback-ok at now random (ok identity) s c h = elim (Bool-cases identity.email_verified) [
    | inr e ↦ absurd (ground (arith, e, h))
    | inl e ↦
        let found = users.get_by_email (normalize_email lower identity.email) s in
        let admitted : handle_callback lower ttl users sessions at now random (ok identity) (s, c)
            ≡ log_in lower ttl users sessions at now random identity.name found (s, c) =
          ground (arith, e) in
        let (user, id, looked_up, drawn, made, updated, created, rest) =
          log_in-ok at now random identity.name found s c (ap (λ p. p.0) (sym admitted) ∙ h) in
        (
          identity,
          user,
          id,
          refl,
          e,
          looked_up,
          drawn,
          made,
          updated,
          created,
          ap (λ p. p.1) admitted ∙ rest,
        )
  ]

get-created :
    (later : Time) (session : Session) (c : Store)
    → session_result (Sessions.get later session.id (Sessions.create session c)).0
      ≡ (if after later session.expires_at then err (sentinel session_not_found) else ok session)
unfolding Sessions.get Sessions.create is_expired
get-created later session c =
    ground (arith, lookup-insert session.id session.id session c.sessions, ==_refl session.id)

module _ (lower : Char → Char) (ttl : ℕ) where
  -- Over a memory session store, the session of a successful `HandleCallback` is found by
  -- `GetSession` under its identifier as long as its time to live has not passed, and never after it.
  pub login_lasts :
      {S : Type 0} (users : UserPort S) (at now later : Time) (random : Result String)
      (answer : Result OauthIdentity) (s : S) (c : Store) {session : Session}
      → (handle_callback lower ttl users (memory_port now) at now random answer (s, c)).0
        ≡ ok session
      → let (_, c') =
          (handle_callback lower ttl users (memory_port now) at now random answer (s, c)).1 in
        (get_session (memory_port later) session.id c').0
        ≡ (if after later (now + ttl) then err (sentinel session_not_found) else ok session)
  unfolding get_session Sessions.get Sessions.create is_expired session_for
  login_lasts users at now later random answer s c {session} h =
      let (identity, user, id, _, _, _, _, made, _, _, rest) =
        handle_callback-ok lower ttl users (memory_port now) at now random answer s c h in
      let ends : session.expires_at ≡ now + ttl = ap (λ x. x.expires_at) made in
      rw (rest, get-created later session c, ends)

module _ {S : Type 0} (lower : Char → Char) (o : Orm AllowedUser S) (laws : OrmLaws user_key o)
    (ttl : ℕ) where
  removed_row :
      (id : String) (p : Result (Unit {0}) × S) (s : S) (c : Store) (now : Time)
      → Deleted user_key laws.rows id s p
      → (revoke_sessions
          (memory_port now)
          id
          (wrap_error "deleting allowed user from database" p.0, p.1)
          c).0
        ≡ ok tt
      → laws.rows id
          (revoke_sessions
            (memory_port now)
            id
            (wrap_error "deleting allowed user from database" p.0, p.1)
            c).1.0
        ≡ none
  removed_row id (err e, s') s c now h q = cc
  removed_row id (ok _, s') s c now h q = ground (arith, h id, ==_refl id)

  -- Once `RemoveAllowedUser` has succeeded, over the repository and a memory session store, no
  -- `HandleCallback` right after it returns a session of that user, whatever the provider answers.
  pub removed_user_cannot_log_in :
      (id : String) (removed at now : Time) (random : Result String) (answer : Result OauthIdentity)
      (s : S) (c : Store) {session : Session}
      → let users = repository lower o in
        let (result, w) = remove_allowed_user (memory_port removed) users.delete id (s, c) in
        result ≡ ok tt
        → (handle_callback lower ttl users (memory_port now) at now random answer w).0 ≡ ok session
        → session.user_id ≢ id
  unfolding remove_allowed_user Repository.delete Repository.get_by_email session_for record_login
  removed_user_cannot_log_in id removed at now random answer s c {session} h q same =
      let users = repository lower o in
      let (s1, c1) = (remove_allowed_user (memory_port removed) users.delete id (s, c)).1 in
      let (identity, user, _, _, _, found, _, made, _, _, _) =
        handle_callback-ok lower ttl users (memory_port now) at now random answer s1 c1 q in
      let email = normalize_email lower identity.email in
      let is_asked = λ (u : AllowedUser). u.email == normalize_email lower email in
      let row = laws.where_holds is_asked s1 (query_result-ok (o.first_where is_asked s1) found) in
      let gone = removed_row id (o.delete id s) s c removed (laws.delete_writes id s) h in
      let key : user.id ≡ id = sym (ap (λ x. x.user_id) made) ∙ same in
      ground (arith, row.1, gone, key)
