-- ===== src/Infra/SessionStore/Index.antt =====
-- How the index by user and the sessions of the store are tied together.
use zensor_server.Prelude.{
  String, Bool, true, false, ◌≡◌, refl, sym, ◌⊎◌, inl, inr, Option, none, some, Option-cases, [],
  ◌∷◌, Time, string_eq, ◌==◌, ==_iff, Dict, lookup, insert, erase, lookup-insert, lookup-erase,
  is_some, if◌then◌else◌, Bool-cases, arith,
}
use zensor_server.SharedKernel.Session.{Session, is_expired}
use zensor_server.Infra.SessionStore.{
  Store, IdSet, new_store, set_of, ids_of, create, put_rest, drop_id, remove_locked, get, delete,
  erase_all, delete_by_user,
}

-- An identifier stands in the set of a user exactly if the session stored under it is the user's.
abbrev pub owned_by : String → Option Session → Bool
owned_by user none = false
owned_by user (some session) = session.user_id == user

pub record IsConsistent (s : Store) : Type 0 where
  pub named :
      (id : String) (session : Session) → lookup id s.sessions ≡ some session → session.id ≡ id
  pub indexed :
      (user id : String)
      → is_some (lookup id (ids_of user s)) ≡ owned_by user (lookup id s.sessions)

new_store-IsConsistent : IsConsistent new_store
unfolding new_store ids_of lookup
new_store-IsConsistent = record { named = λ id session h. cc; indexed = λ user id. refl }

-- A session that takes no identifier of another user.
abbrev pub IsFresh : Session → Store → Type 0
IsFresh session s =
    (lookup session.id s.sessions ≡ none)
    ⊎ ((old : Session) × (lookup session.id s.sessions ≡ some old)
        × (old.user_id ≡ session.user_id))

create-ids :
    (session : Session) (s : Store) (user id : String)
    → lookup id (ids_of user (create session s)) ≡ (
        if session.user_id == user
        then (if session.id == id then some tt else lookup id (ids_of user s))
        else lookup id (ids_of user s))
unfolding create ids_of
create-ids session s user id = elim (Bool-cases (session.user_id == user)) [
  | inl e ↦ rw (
    lookup-insert session.user_id user
        (insert session.id tt (set_of (lookup session.user_id s.sessions_by_user)))
        s.sessions_by_user,
    e,
    lookup-insert session.id id tt (set_of (lookup session.user_id s.sessions_by_user)),
    (==_iff session.user_id user).0 e,
  )
  | inr e ↦ rw (
    lookup-insert session.user_id user
        (insert session.id tt (set_of (lookup session.user_id s.sessions_by_user)))
        s.sessions_by_user,
    e,
  )
]

create-IsConsistent :
    (session : Session) (s : Store)
    → IsFresh session s
    → IsConsistent s
    → IsConsistent (create session s)
unfolding create
create-IsConsistent session s fresh h = record {
  named = λ id found e. elim (Bool-cases (session.id == id)) [
    | inl q ↦
        ground (arith, lookup-insert session.id id session s.sessions, ==_iff session.id id, q, e)
    | inr q ↦
        h.named id found (ground (arith, lookup-insert session.id id session s.sessions, q, e))
  ];
  indexed = λ user id. ground (
    arith,
    create-ids session s user id,
    lookup-insert session.id id session s.sessions,
    h.indexed user id,
    ==_iff session.id id,
    ==_iff session.user_id user,
    fresh,
  );
}

lookup-empty : (i : String) → none ≡ lookup {V = Unit {0}} i []
unfolding lookup
lookup-empty i = refl

none-set :
    (user u : String) (index : Dict String IdSet) (i : String)
    → lookup user index ≡ none
    → user == u ≡ true
    → lookup i (set_of (lookup u index)) ≡ none
unfolding lookup
none-set user u index i e same = rw (sym ((==_iff user u).0 same), e)

put_rest-set :
    (user u i : String) (rest : IdSet) (index : Dict String IdSet)
    → lookup i (set_of (lookup u (put_rest user rest index)))
      ≡ (if user == u then lookup i rest else lookup i (set_of (lookup u index)))
unfolding lookup
put_rest-set user u i [] index = elim (Bool-cases (user == u)) [
  | inl e ↦ rw (lookup-erase user u index, e)
  | inr e ↦ rw (lookup-erase user u index, e)
]
put_rest-set user u i (j ∷ rest) index = elim (Bool-cases (user == u)) [
  | inl e ↦ rw (lookup-insert user u (j ∷ rest) index, e)
  | inr e ↦ rw (lookup-insert user u (j ∷ rest) index, e)
]

drop_id-set :
    (user id u i : String) (index : Dict String IdSet)
    → lookup i (set_of (lookup u (drop_id user id (lookup user index) index))) ≡ (
        if user == u
        then (if id == i then none else lookup i (set_of (lookup u index)))
        else lookup i (set_of (lookup u index)))
drop_id-set user id u i index = elim (Option-cases (lookup user index)) [
  | inl e ↦ rw e (elim (Bool-cases (user == u)) [
    | inl q ↦ rw q (ground (arith, none-set user u index i e q))
    | inr q ↦ rw q
  ])
  | inr (ids, e) ↦ rw e (
      ground (
        arith,
        e,
        put_rest-set user u i (erase id ids) index,
        lookup-erase id i ids,
        ==_iff user u,
      ))
]

erase_all-lookup :
    (id : String) (ids : IdSet) (sessions : Dict String Session)
    → lookup id (erase_all ids sessions)
      ≡ (if is_some (lookup id ids) then none else lookup id sessions)
unfolding erase_all lookup
erase_all-lookup id [] sessions = refl
erase_all-lookup id ((j, _) ∷ ids) sessions =
    ground (arith, erase_all-lookup id ids (erase j sessions), lookup-erase j id sessions)

remove_locked-IsConsistent :
    (session : Session) (s : Store)
    → lookup session.id s.sessions ≡ some session
    → IsConsistent s
    → IsConsistent (remove_locked session s)
unfolding remove_locked ids_of
remove_locked-IsConsistent session s stored h = record {
  named = λ id found e. h.named id found (ground (arith, lookup-erase session.id id s.sessions, e));
  indexed = λ user id. ground (
    arith,
    drop_id-set session.user_id session.id user id s.sessions_by_user,
    lookup-erase session.id id s.sessions,
    h.indexed user id,
    ==_iff session.id id,
    ==_iff session.user_id user,
    stored,
    ids_of,
  );
}

get-IsConsistent :
    (now : Time) (id : String) (s : Store) → IsConsistent s → IsConsistent (get now id s).1
unfolding get
get-IsConsistent now id s h = elim (Option-cases (lookup id s.sessions)) [
  | inl e ↦ rw (e, get) h
  | inr (session, e) ↦
      rw (e, get)
        (elim (Bool-cases (is_expired session now)) [
          | inl x ↦
              rw x
                (remove_locked-IsConsistent session s (ground (arith, e, h.named id session e)) h)
          | inr x ↦ rw x h
        ])
]

delete-IsConsistent : (id : String) (s : Store) → IsConsistent s → IsConsistent (delete id s)
unfolding delete
delete-IsConsistent id s h = elim (Option-cases (lookup id s.sessions)) [
  | inl e ↦ rw (e, delete) h
  | inr (session, e) ↦
      rw (e, delete)
        (remove_locked-IsConsistent session s (ground (arith, e, h.named id session e)) h)
]

pub delete_by_user-lookup :
    (user id : String) (s : Store)
    → IsConsistent s
    → lookup id (delete_by_user user s).sessions
      ≡ (if owned_by user (lookup id s.sessions) then none else lookup id s.sessions)
unfolding delete_by_user
delete_by_user-lookup user id s h =
    rw (erase_all-lookup id (ids_of user s) s.sessions, h.indexed user id)

delete_by_user-set :
    (user u id : String) (s : Store)
    → lookup id (ids_of u (delete_by_user user s))
      ≡ (if user == u then none else lookup id (ids_of u s))
unfolding delete_by_user ids_of
delete_by_user-set user u id s = elim (Bool-cases (user == u)) [
  | inl e ↦ rw (lookup-erase user u s.sessions_by_user, e, sym (lookup-empty id))
  | inr e ↦ rw (lookup-erase user u s.sessions_by_user, e)
]

owned_once :
    (user u : String) (found : Option Session)
    → owned_by user found ≡ true
    → owned_by u found ≡ (user == u)
owned_once user u none h = cc
owned_once user u (some session) h =
    ground (arith, ==_iff user u, ==_iff session.user_id u, ==_iff session.user_id user, h)

delete_by_user-IsConsistent :
    (user : String) (s : Store) → IsConsistent s → IsConsistent (delete_by_user user s)
delete_by_user-IsConsistent user s h = record {
  named = λ id found e. h.named id found (ground (arith, delete_by_user-lookup user id s h, e));
  indexed = λ u id. ground (
    arith,
    delete_by_user-lookup user id s h,
    delete_by_user-set user u id s,
    h.indexed u id,
    owned_once user u (lookup id s.sessions),
    ==_iff user u,
  );
}

-- The stores that the methods build from an empty one. A session that is created takes no
-- identifier of another user.
pub data Reachable : Store → Type 0 where
  started : Reachable new_store
  created :
      (session : Session) (s : Store)
      → IsFresh session s
      → Reachable s
      → Reachable (create session s)
  fetched : (now : Time) (id : String) (s : Store) → Reachable s → Reachable (get now id s).1
  deleted : (id : String) (s : Store) → Reachable s → Reachable (delete id s)
  revoked : (user : String) (s : Store) → Reachable s → Reachable (delete_by_user user s)

-- However the methods are called, as long as no session is created under the identifier of a stored
-- session of another user, the index and the sessions agree: an identifier stands in the
-- set of a user exactly if the session stored under it is that user's, and each session is stored
-- under its own identifier.
pub Reachable-IsConsistent : (s : Store) → Reachable s → IsConsistent s
Reachable-IsConsistent s started = new_store-IsConsistent
Reachable-IsConsistent s (created session r fresh h) =
    create-IsConsistent session r fresh (Reachable-IsConsistent r h)
Reachable-IsConsistent s (fetched now id r h) =
    get-IsConsistent now id r (Reachable-IsConsistent r h)
Reachable-IsConsistent s (deleted id r h) = delete-IsConsistent id r (Reachable-IsConsistent r h)
Reachable-IsConsistent s (revoked user r h) =
    delete_by_user-IsConsistent user r (Reachable-IsConsistent r h)
