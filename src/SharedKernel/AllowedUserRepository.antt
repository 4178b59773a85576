-- ===== src/SharedKernel/AllowedUserRepository.antt =====
-- internal/shared_kernel/persistence/allowed_user_repository.go over the ORM. The entity has the fields of
-- the domain record (internal/shared_kernel/persistence/internal/allowed_user.go), and is taken as it.
-- `FindAll`, a listing in the order of the addresses, is left out.
use Prim.Native.Char.{Char}
use zensor_server.Prelude.{
  String, ◌==◌, string_eq, if◌then◌else◌, Result, ok, err, is_error, wrap, wrap_error, sentinel,
  Action, record_not_found, allowed_user_not_found,
}
use zensor_server.Infra.Orm.{Orm}
use zensor_server.SharedKernel.AllowedUser.{AllowedUser, normalize_email}

-- The two error tests after a query.
unfoldable pub query_result : Result AllowedUser → Result AllowedUser
query_result (ok u) = ok u
query_result (err e) =
    if is_error e record_not_found
    then err (sentinel allowed_user_not_found)
    else err (wrap "database query" e)

module _ {S : Type 0} (lower : Char → Char) (o : Orm AllowedUser S) where
  unfoldable pub create : AllowedUser → Action S (Unit {0})
  create u s =
      let (result, s') = o.create u s in (wrap_error "creating allowed user in database" result, s')

  unfoldable pub get_by_id : String → S → Result AllowedUser
  get_by_id id s = query_result (o.first_where (λ u. u.id == id) s)

  unfoldable pub get_by_email : String → S → Result AllowedUser
  get_by_email email s =
      query_result (o.first_where (λ u. u.email == normalize_email lower email) s)

  unfoldable pub update : AllowedUser → Action S (Unit {0})
  update u s =
      let (result, s') = o.save u s in (wrap_error "updating allowed user in database" result, s')

  unfoldable pub delete : String → Action S (Unit {0})
  delete id s =
      let (result, s') = o.delete id s in
      (wrap_error "deleting allowed user from database" result, s')
