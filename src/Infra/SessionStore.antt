-- ===== src/Infra/SessionStore.antt =====
-- internal/infra/auth/memory_session_store.go. Every method holds the lock over its whole body, but
-- for the gap in `Get` between reading and removing an expired session, which no step falls into
-- here. A Go map is a `Dict`; a set of identifiers is one without values.
pub mod Index
pub mod Revocation
pub mod Refinement
mod Tests
use zensor_server.Prelude.{
  String, Bool, true, false, ◌≡◌, Option, none, some, List, [], ◌∷◌, Time, string_eq, Dict, lookup,
  insert, erase, or_else, if◌then◌else◌, Result, ok, err, sentinel, session_not_found,
}
use zensor_server.SharedKernel.Session.{Session, is_expired}

abbrev pub IdSet : Type 0
IdSet = Dict String (Unit {0})

pub record Store : Type 0 where
  pub sessions : Dict String Session
  pub sessions_by_user : Dict String IdSet

unfoldable pub new_store : Store
new_store = record { sessions = []; sessions_by_user = [] }

-- `s.sessionsByUser[userID]`, which is empty for an unknown user.
abbrev pub set_of : Option IdSet → IdSet
set_of none = []
set_of (some ids) = ids

unfoldable pub ids_of : String → Store → IdSet
ids_of user s = set_of (lookup user s.sessions_by_user)

-- `Create`
unfoldable pub create : Session → Store → Store
create session s = record {
  sessions = insert session.id session s.sessions;
  sessions_by_user =
      insert session.user_id (insert session.id tt (ids_of session.user_id s)) s.sessions_by_user;
}

-- The user's set once an identifier has been removed; an empty set is dropped.
abbrev pub put_rest : String → IdSet → Dict String IdSet → Dict String IdSet
put_rest user [] index = erase user index
put_rest user (i ∷ rest) index = insert user (i ∷ rest) index

abbrev pub drop_id : String → String → Option IdSet → Dict String IdSet → Dict String IdSet
drop_id user id none index = index
drop_id user id (some ids) index = put_rest user (erase id ids) index

-- `removeLocked`
unfoldable pub remove_locked : Session → Store → Store
remove_locked session s = record {
  sessions = erase session.id s.sessions;
  sessions_by_user =
      drop_id session.user_id session.id (lookup session.user_id s.sessions_by_user)
        s.sessions_by_user;
}

-- `Get`
unfoldable pub get : Time → String → Store → Result Session × Store
get now id s = elim (lookup id s.sessions) [
  | none ↦ (err (sentinel session_not_found), s)
  | some session ↦
      if is_expired session now
      then (err (sentinel session_not_found), remove_locked session s)
      else (ok session, s)
]

-- `Delete`
unfoldable pub delete : String → Store → Store
delete id s = elim (lookup id s.sessions) [ none ↦ s | some session ↦ remove_locked session s ]

-- The loop of `DeleteByUser`.
unfoldable pub erase_all : IdSet → Dict String Session → Dict String Session
erase_all [] sessions = sessions
erase_all ((id, _) ∷ ids) sessions = erase_all ids (erase id sessions)

-- `DeleteByUser`
unfoldable pub delete_by_user : String → Store → Store
delete_by_user user s = record {
  sessions = erase_all (ids_of user s) s.sessions;
  sessions_by_user = erase user s.sessions_by_user;
}
