-- ===== src/Infra/SessionStore/Tests.antt =====
-- Runs of the session store, and the theorems on a store that a run reaches.
use zensor_server.Prelude.{
  String, List, [], ◌∷◌, false, ◌≡◌, refl, inl, none, Time, string_eq, lookup, insert, erase, ok,
  err, sentinel, session_not_found,
}
use zensor_server.SharedKernel.Session.{Session, is_expired}
use zensor_server.Infra.SessionStore.{
  Store, new_store, ids_of, create, remove_locked, get, delete_by_user, erase_all,
}
use zensor_server.Infra.SessionStore.Index.{
  IsConsistent, Reachable, started, created, Reachable-IsConsistent,
}
use zensor_server.Infra.SessionStore.Refinement.{
  Call, opens, reads, closes_all, answers, replay, Admissible, answers-new_store,
}

abbrev session_of : String → String → Time → Session
session_of id user until = record {
  id = id;
  user_id = user;
  email = "ann@example.com";
  name = "Ann";
  is_admin = false;
  created_at = 1;
  expires_at = until;
}

abbrev one_session : Store
one_session = create (session_of "s1" "ann" 10) new_store

abbrev two_sessions : Store
two_sessions = create (session_of "s2" "bob" 20) one_session

one_session-Reachable : Reachable one_session
unfolding new_store lookup
one_session-Reachable = created (session_of "s1" "ann" 10) new_store (inl refl) started

two_sessions-Reachable : Reachable two_sessions
unfolding new_store create lookup insert
two_sessions-Reachable =
    created (session_of "s2" "bob" 20) one_session (inl refl) one_session-Reachable

expired_session_is_dropped :
    ((get 11 "s1" two_sessions).0 ≡ err (sentinel session_not_found))
    × (lookup "s1" (get 11 "s1" two_sessions).1.sessions ≡ none)
    × ((get 11 "s2" two_sessions).0 ≡ ok (session_of "s2" "bob" 20))
unfolding new_store create lookup insert erase get remove_locked is_expired ids_of
expired_session_is_dropped = (refl, refl, refl)

Reachable-IsConsistent_example : IsConsistent two_sessions
Reachable-IsConsistent_example = Reachable-IsConsistent two_sessions two_sessions-Reachable

abbrev calls_of_two : List Call
calls_of_two =
    opens (session_of "s1" "ann" 10)
    ∷ opens (session_of "s2" "bob" 20)
    ∷ reads 11 "s1"
    ∷ closes_all "bob"
    ∷ reads 12 "s2"
    ∷ []

answers-new_store_example : answers calls_of_two new_store ≡ replay calls_of_two (λ _. none)
unfolding Admissible
answers-new_store_example = answers-new_store calls_of_two (inl refl, (inl refl, tt))

answers_run :
    answers calls_of_two new_store
    ≡ err (sentinel session_not_found) ∷ err (sentinel session_not_found) ∷ []
unfolding answers new_store create lookup insert erase get remove_locked is_expired ids_of
    delete_by_user erase_all
answers_run = refl
