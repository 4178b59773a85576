-- ===== src/Infra/SessionStore/Refinement.antt =====
-- What the store promises, as a function from identifiers to sessions, and the calls that a client
-- makes of it in a row.
use zensor_server.Prelude.{
  String, ◌≡◌, refl, sym, fun_ext, ◌⊎◌, inl, inr, Option, none, some, List, [], ◌∷◌, Option-cases,
  Time, string_eq, ◌==◌, ==_iff, lookup, lookup-insert, lookup-erase, if◌then◌else◌, Result, ok,
  err, sentinel, session_not_found, arith,
}
use zensor_server.SharedKernel.Session.{Session, is_expired}
use zensor_server.Infra.SessionStore.{
  Store, new_store, create, remove_locked, get, delete, delete_by_user,
}
use zensor_server.Infra.SessionStore.Index.{
  owned_by, Reachable, started, created, fetched, deleted, revoked, Reachable-IsConsistent,
  delete_by_user-lookup,
}

pub data Call : Type 0 where
  opens : Session → Call
  reads : Time → String → Call
  closes : String → Call
  closes_all : String → Call

-- The answers to the reads of a run.
unfoldable pub answers : List Call → Store → List (Result Session)
answers [] s = []
answers (opens session ∷ calls) s = answers calls (create session s)
answers (reads now id ∷ calls) s = (get now id s).0 ∷ answers calls (get now id s).1
answers (closes id ∷ calls) s = answers calls (delete id s)
answers (closes_all user ∷ calls) s = answers calls (delete_by_user user s)

abbrev pub View : Type 0
View = String → Option Session

abbrev pub set : String → Option Session → View → View
set id found v other = if id == other then found else v other

abbrev pub live : Time → Option Session → Option Session
live now none = none
live now (some session) = if is_expired session now then none else some session

abbrev pub answer : Option Session → Result Session
answer none = err (sentinel session_not_found)
answer (some session) = ok session

abbrev pub remove_user : String → View → View
remove_user user v id = if owned_by user (v id) then none else v id

-- The same calls on the function; a session that has expired is gone once it is read.
unfoldable pub replay : List Call → View → List (Result Session)
replay [] v = []
replay (opens session ∷ calls) v = replay calls (set session.id (some session) v)
replay (reads now id ∷ calls) v =
    answer (live now (v id)) ∷ replay calls (set id (live now (v id)) v)
replay (closes id ∷ calls) v = replay calls (set id none v)
replay (closes_all user ∷ calls) v = replay calls (remove_user user v)

abbrev pub IsFree : Session → Option Session → Type 0
IsFree session found =
    (found ≡ none) ⊎ ((old : Session) × (found ≡ some old) × (old.user_id ≡ session.user_id))

-- No session is opened under an identifier that another user's session has.
unfoldable pub Admissible : List Call → View → Type 0
Admissible [] v = Unit
Admissible (opens session ∷ calls) v =
    IsFree session (v session.id) × Admissible calls (set session.id (some session) v)
Admissible (reads now id ∷ calls) v = Admissible calls (set id (live now (v id)) v)
Admissible (closes id ∷ calls) v = Admissible calls (set id none v)
Admissible (closes_all user ∷ calls) v = Admissible calls (remove_user user v)

abbrev view : Store → View
view s id = lookup id s.sessions

view-create :
    (session : Session) (s : Store)
    → view (create session s) ≡ set session.id (some session) (view s)
unfolding create
view-create session s = fun_ext (λ id. lookup-insert session.id id session s.sessions)

get_answer :
    (now : Time) (id : String) (s : Store)
    → (get now id s).0 ≡ answer (live now (lookup id s.sessions))
unfolding get
get_answer now id s = elim (Option-cases (lookup id s.sessions)) [
  | inl e ↦ ground (arith, e)
  | inr (session, e) ↦ ground (arith, e)
]

view-get :
    (now : Time) (id : String) (s : Store)
    → Reachable s
    → view (get now id s).1 ≡ set id (live now (lookup id s.sessions)) (view s)
unfolding get remove_locked
view-get now id s h = fun_ext (λ other. elim (Option-cases (lookup id s.sessions)) [
  | inl e ↦ ground (arith, e, ==_iff id other)
  | inr (session, e) ↦ ground (
    arith,
    e,
    (Reachable-IsConsistent s h).named id session e,
    lookup-erase session.id other s.sessions,
    ==_iff id other,
  )
])

view-delete : (id : String) (s : Store) → Reachable s → view (delete id s) ≡ set id none (view s)
unfolding delete remove_locked
view-delete id s h = fun_ext (λ other. elim (Option-cases (lookup id s.sessions)) [
  | inl e ↦ ground (arith, e, ==_iff id other)
  | inr (session, e) ↦ ground (
    arith,
    e,
    (Reachable-IsConsistent s h).named id session e,
    lookup-erase session.id other s.sessions,
  )
])

view-delete_by_user :
    (user : String) (s : Store)
    → Reachable s
    → view (delete_by_user user s) ≡ remove_user user (view s)
view-delete_by_user user s h =
    fun_ext (λ id. delete_by_user-lookup user id s (Reachable-IsConsistent s h))

answers_refine :
    (calls : List Call) (s : Store)
    → Reachable s
    → Admissible calls (view s)
    → answers calls s ≡ replay calls (view s)
unfolding answers replay Admissible
answers_refine [] s h a = refl
answers_refine (opens session ∷ calls) s h (free, a) = rw (sym (view-create session s)) (
    answers_refine calls (create session s) (created session s free h)
      (rw (view-create session s) a))
answers_refine (reads now id ∷ calls) s h a = rw (
  get_answer now id s,
  sym (view-get now id s h),
  answers_refine calls (get now id s).1 (fetched now id s h) (rw (view-get now id s h) a),
)
answers_refine (closes id ∷ calls) s h a =
    rw (sym (view-delete id s h))
      (answers_refine calls (delete id s) (deleted id s h) (rw (view-delete id s h) a))
answers_refine (closes_all user ∷ calls) s h a = rw (sym (view-delete_by_user user s h)) (
    answers_refine calls (delete_by_user user s) (revoked user s h)
      (rw (view-delete_by_user user s h) a))

-- Over any row of calls on a new store, in which no session is opened under the identifier of
-- another user's session, the reads answer as those of a plain function from identifiers to sessions:
-- opening sets it at one place, a read drops an expired session, closing clears one place or the sessions of one user.
pub answers-new_store :
    (calls : List Call)
    → Admissible calls (λ _. none)
    → answers calls new_store ≡ replay calls (λ _. none)
unfolding new_store lookup
answers-new_store calls a = answers_refine calls new_store started a
