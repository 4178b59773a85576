-- ===== src/Infra/SessionStore/Revocation.antt =====
-- What a caller reads after the methods that remove sessions.
use zensor_server.Prelude.{
  String, false, ◌≡◌, ◌⊎◌, inl, inr, none, some, Option-cases, Time, string_eq, ◌==◌, ==_iff,
  lookup, lookup-erase, if◌then◌else◌, ok, err, sentinel, session_not_found, Bool-cases, arith,
}
use zensor_server.SharedKernel.Session.{Session, is_expired}
use zensor_server.Infra.SessionStore.{Store, remove_locked, get, delete, delete_by_user}
use zensor_server.Infra.SessionStore.Index.{
  owned_by, Reachable, Reachable-IsConsistent, delete_by_user-lookup,
}

-- In a store that the methods reach, `DeleteByUser` removes the sessions of the user, all of them and
-- no other.
pub delete_by_user_exact :
    (s : Store) (user id : String)
    → Reachable s
    → lookup id (delete_by_user user s).sessions
      ≡ (if owned_by user (lookup id s.sessions) then none else lookup id s.sessions)
delete_by_user_exact s user id h = delete_by_user-lookup user id s (Reachable-IsConsistent s h)

-- In a store that the methods reach, `Get` answers exactly with the stored session while it has not expired, and then leaves the
-- store alone; in every other case it answers `ErrSessionNotFound`, nothing is stored under the
-- identifier afterwards, and the other sessions are as before.
pub get_outcome :
    (now : Time) (id : String) (s : Store)
    → Reachable s
    → ((session : Session) × (lookup id s.sessions ≡ some session)
        × (is_expired session now ≡ false)
        × (get now id s ≡ (ok session, s)))
      ⊎ (((get now id s).0 ≡ err (sentinel session_not_found))
          × ((other : String)
              → lookup other (get now id s).1.sessions
                ≡ (if id == other then none else lookup other s.sessions)))
unfolding get remove_locked
get_outcome now id s h = elim (Option-cases (lookup id s.sessions)) [
  | inl e ↦ inr (ground (arith, e), λ other. ground (arith, e, ==_iff id other))
  | inr (session, e) ↦ elim (Bool-cases (is_expired session now)) [
    | inr live ↦ inl (session, e, live, ground (arith, e, live))
    | inl gone ↦ inr (
      ground (arith, e, gone),
      λ other. ground (
        arith,
        e,
        gone,
        (Reachable-IsConsistent s h).named id session e,
        lookup-erase session.id other s.sessions,
      ),
    )
  ]
]

-- In a store that the methods reach, after `Delete` no `Get` finds the session, and the sessions under the other identifiers are as
-- before.
delete_logs_out :
    (now : Time) (id : String) (s : Store)
    → Reachable s
    → ((get now id (delete id s)).0 ≡ err (sentinel session_not_found))
      × ((other : String)
          → lookup other (delete id s).sessions
            ≡ (if id == other then none else lookup other s.sessions))
unfolding get delete remove_locked
delete_logs_out now id s h = elim (Option-cases (lookup id s.sessions)) [
  | inl e ↦ (ground (arith, e), λ other. ground (arith, e, ==_iff id other))
  | inr (session, e) ↦
      let key = (Reachable-IsConsistent s h).named id session e in
      (
        ground (arith, e, key, lookup-erase session.id id s.sessions, ==_iff session.id id),
        λ other. ground (arith, e, key, lookup-erase session.id other s.sessions),
      )
]
