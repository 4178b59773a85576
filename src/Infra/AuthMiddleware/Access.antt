-- ===== src/Infra/AuthMiddleware/Access.antt =====
-- Which requests the middleware serves, and with which headers.
use zensor_server.Prelude.{
  String, Bool, true, false, not, ◌&&◌, ◌||◌, ◌≡◌, refl, inl, inr, ◌⊎◌, ◌≢◌, Bool-cases, Option,
  Option-cases, none, some, has_prefix, trim_prefix, trim_space, ◌==◌, ==_iff, string_eq,
  if◌then◌else◌, Result, Result-cases, ok, arith,
}
use zensor_server.SharedKernel.Session.{Session}
use zensor_server.SharedKernel.ApiKey.{ApiKey}
use zensor_server.Infra.AuthMiddleware.{
  Request, Reply, served, refused, Identity, by_session, by_api_key, anonymous, admin_path_prefix,
  is_public_path, strip_headers, set_headers, decide, resolve_session, resolve_raw_key,
  resolve_api_key, identify, middleware,
}

-- An administrator's session.
abbrev pub is_admin : Identity → Bool
is_admin (by_session session) = session.is_admin
is_admin _ = false

abbrev pub is_known : Identity → Bool
is_known anonymous = false
is_known _ = true

abbrev pub is_served : Reply → Bool
is_served (served _) = true
is_served (refused _ _) = false

-- The headers that name the identity, and no others.
abbrev pub NamesIdentity : Identity → Reply → Type 0
NamesIdentity identity (refused _ _) = Unit
NamesIdentity (by_session session) (served r) =
    (r.user_id ≡ some session.user_id)
    × (r.user_name ≡ some session.name)
    × (r.user_email ≡ some session.email)
NamesIdentity (by_api_key key) (served r) =
    (r.user_id ≡ some key.id) × (r.user_name ≡ some key.name) × (r.user_email ≡ some "")
NamesIdentity anonymous (served r) =
    (r.user_id ≡ none) × (r.user_name ≡ none) × (r.user_email ≡ none)

decide-is_served :
    (identity : Identity) (r : Request)
    → is_served (decide identity (set_headers identity (strip_headers r))) ≡ (
        is_public_path r.path
        || (is_known identity && (is_admin identity || not (has_prefix r.path admin_path_prefix))))
unfolding decide set_headers strip_headers
decide-is_served (by_session session) r = ground arith
decide-is_served (by_api_key key) r = ground arith
decide-is_served anonymous r = ground arith

decide-NamesIdentity :
    (identity : Identity) (r : Request)
    → NamesIdentity identity (decide identity (set_headers identity (strip_headers r)))
unfolding decide set_headers strip_headers
decide-NamesIdentity (by_session session) r = elim (Bool-cases (is_public_path r.path)) [
  | inl e ↦ rw e (refl, refl, refl)
  | inr e ↦ elim (Bool-cases (has_prefix r.path admin_path_prefix && not session.is_admin)) [
    | inl f ↦ rw (e, f) tt
    | inr f ↦ rw (e, f) (refl, refl, refl)
  ]
]
decide-NamesIdentity (by_api_key key) r = elim (Bool-cases (is_public_path r.path)) [
  | inl e ↦ rw e (refl, refl, refl)
  | inr e ↦ elim (Bool-cases (has_prefix r.path admin_path_prefix)) [
    | inl f ↦ rw (e, f) tt
    | inr f ↦ rw (e, f) (refl, refl, refl)
  ]
]
decide-NamesIdentity anonymous r = elim (Bool-cases (is_public_path r.path)) [
  | inl e ↦ rw e (refl, refl, refl)
  | inr e ↦ rw e tt
]

module _ {S : Type 0} (sessions : String → S → Result Session × S)
    (api_keys : String → S → Result ApiKey × S) where
  -- The session cookie names a session that the store of sessions answers with.
  abbrev pub HasSession : Request → S → Session → Type 0
  HasSession r s session =
      (cookie : String) × (r.session_cookie ≡ some cookie)
      × (cookie ≢ "")
      × ((sessions cookie s).0 ≡ ok session)

  -- The store after the session of a cookie has been asked for.
  abbrev pub asked : Option String → S → S
  asked none s = s
  asked (some cookie) s = if cookie == "" then s else (sessions cookie s).1

  -- What follows `Bearer `, without the space round it.
  abbrev pub bearer : Request → String
  bearer r = trim_space (trim_prefix r.authorization "Bearer ")

  -- The `Authorization` header holds a key that the API keys answer with.
  abbrev pub HasKey : Request → S → ApiKey → Type 0
  HasKey r s key =
      (has_prefix r.authorization "Bearer " ≡ true)
      × (bearer r ≢ "")
      × ((api_keys (bearer r) (asked r.session_cookie s)).0 ≡ ok key)

  -- Whom a request is from: a session goes before an API key.
  abbrev pub Identifies : Request → S → Identity → Type 0
  Identifies r s (by_session session) = HasSession r s session
  Identifies r s (by_api_key key) =
      ((session : Session) → ¬ HasSession r s session) × HasKey r s key
  Identifies r s anonymous =
      ((session : Session) → ¬ HasSession r s session) × ((key : ApiKey) → ¬ HasKey r s key)

  session-cases :
      (r : Request) (s : S)
      → ((session : Session) × HasSession r s session
          × (resolve_session sessions api_keys r s
              ≡ (by_session session, asked r.session_cookie s)))
        ⊎ (((session : Session) → ¬ HasSession r s session)
            × (resolve_session sessions api_keys r s ≡ (anonymous, asked r.session_cookie s)))
  unfolding resolve_session
  session-cases r s = elim (Option-cases r.session_cookie) [
    | inl e ↦ inr (λ session (cookie, sent, _, _). cc, ground (arith, e))
    | inr (cookie, e) ↦ elim (Bool-cases (cookie == "")) [
      | inl empty ↦ inr (
        λ session (other, sent, given, _).
            absurd (ground (arith, e, sent, given, empty, ==_iff cookie "")),
        ground (arith, e, empty),
      )
      | inr given ↦ elim (Result-cases (sessions cookie s).0) [
        | inl (session, f) ↦ inl (
          session,
          (cookie, e, λ same. absurd (ground (arith, same, given, ==_iff cookie "")), f),
          ground (arith, e, given, f),
        )
        | inr (x, f) ↦ inr (
          λ session (other, sent, _, found). absurd (ground (arith, e, sent, found, f)),
          ground (arith, e, given, f),
        )
      ]
    ]
  ]

  key-cases :
      (r : Request) (s : S)
      → ((key : ApiKey) × HasKey r s key
          × ((resolve_api_key sessions api_keys r (asked r.session_cookie s)).0 ≡ by_api_key key))
        ⊎ (((key : ApiKey) → ¬ HasKey r s key)
            × ((resolve_api_key sessions api_keys r (asked r.session_cookie s)).0 ≡ anonymous))
  unfolding resolve_api_key resolve_raw_key
  key-cases r s = elim (Bool-cases (has_prefix r.authorization "Bearer ")) [
    | inr e ↦ inr (λ key (prefixed, _, _). cc, ground (arith, e))
    | inl e ↦ elim (Bool-cases (bearer r == "")) [
      | inl empty ↦ inr (
        λ key (_, given, _). absurd (given ((==_iff (bearer r) "").0 empty)),
        ground (arith, e, empty),
      )
      | inr given ↦ elim (Result-cases (api_keys (bearer r) (asked r.session_cookie s)).0) [
        | inl (key, f) ↦ inl (
          key,
          (e, λ same. absurd (ground (arith, same, given, ==_iff (bearer r) "")), f),
          ground (arith, e, given, f),
        )
        | inr (x, f) ↦
            inr
              (λ key (_, _, found). absurd (ground (arith, found, f)), ground (arith, e, given, f))
      ]
    ]
  ]

  identify-Identifies :
      (r : Request) (s : S)
      → (identity : Identity) × Identifies r s identity
        × ((identify sessions api_keys r s).0 ≡ identity)
  unfolding identify
  identify-Identifies r s = elim (session-cases r s) [
    | inl (session, has, e) ↦ (by_session session, has, ground (arith, e))
    | inr (no_session, e) ↦ elim (key-cases r s) [
      | inl (key, has, f) ↦ (by_api_key key, (no_session, has), ground (arith, e, f))
      | inr (no_key, f) ↦ (anonymous, (no_session, no_key), ground (arith, e, f))
    ]
  ]

  -- Whom a request is from is the session that its cookie names, else the API key after `Bearer `,
  -- else nobody. It is served exactly if its path is public, or there is a session or a key and, on
  -- an administration path, an administrator's session; what is served carries the user headers of
  -- that identity, and none where there is none.
  pub middleware_lem :
      (r : Request) (s : S)
      → let (reply, _) = middleware sessions api_keys r s in
        (identity : Identity) × Identifies r s identity
        × (is_served reply ≡ (
            is_public_path r.path
            || (is_known identity
                && (is_admin identity || not (has_prefix r.path admin_path_prefix)))))
        × NamesIdentity identity reply
  unfolding middleware strip_headers
  middleware_lem r s =
      let (identity, has, e) = identify-Identifies (strip_headers r) s in
      (
        identity,
        has,
        rw e (unfold middleware in decide-is_served identity r),
        rw e (decide-NamesIdentity identity r),
      )

  -- The user headers that a client sends have no effect: the outcome and the store are those of the
  -- same request without them.
  pub middleware-forged :
      (r : Request) (s : S) (id name email : Option String)
      → middleware sessions api_keys
          (record r { user_id = id; user_name = name; user_email = email })
          s
        ≡ middleware sessions api_keys r s
  unfolding middleware strip_headers
  middleware-forged r s id name email = refl
