-- ===== src/SharedKernel/User.antt =====
-- internal/shared_kernel/domain/user.go, and the `Upsert` and `GetByID` of
-- internal/shared_kernel/persistence/user_repository.go over the ORM. The row
-- (internal/shared_kernel/persistence/internal/user.go) holds the tenants as an array of texts.
use zensor_server.Prelude.{
  String, Bool, not, List, [], ◌∷◌, ◌++◌, keep, contains, Time, ◌==◌, string_eq, if◌then◌else◌,
  Result, ok, err, is_error, wrap, wrap_error, sentinel, Action, record_not_found, user_not_found,
}
use zensor_server.Infra.Orm.{Orm}

pub record User : Type 0 where
  pub id : String
  pub tenants : List String

unfoldable pub add_tenant : String → User → User
add_tenant tenant_id u = record u { tenants = u.tenants ++ tenant_id ∷ [] }

unfoldable pub remove_tenant : String → User → User
remove_tenant tenant_id u = record u { tenants = keep (λ t. not (t == tenant_id)) u.tenants }

unfoldable pub has_tenant : String → User → Bool
has_tenant tenant_id u = contains u.tenants tenant_id

unfoldable pub set_tenants : List String → User → User
set_tenants tenant_ids u = record u { tenants = tenant_ids }

-- The entity `User`.
pub record Row : Type 0 where
  pub id : String
  pub tenants : List String
  pub created_at : Time
  pub updated_at : Time

unfoldable pub to_domain : Row → User
to_domain r = record { id = r.id; tenants = r.tenants }

unfoldable pub from_user : Time → User → Row
from_user now u = record { id = u.id; tenants = u.tenants; created_at = now; updated_at = now }

module _ {S : Type 0} (o : Orm Row S) where
  abbrev pub wrapped : String → Result (Unit {0}) × S → Result (Unit {0}) × S
  wrapped context (result, s) = (wrap_error context result, s)

  -- `Upsert` once the existing row has been looked up.
  abbrev pub upsert_over : Row → Result Row → Action S (Unit {0})
  upsert_over entity (ok existing) s =
      wrapped "updating user in database"
        (o.save (record existing { tenants = entity.tenants; updated_at = entity.updated_at }) s)
  upsert_over entity (err e) s =
      if is_error e record_not_found
      then wrapped "creating user in database" (o.create entity s)
      else (err (wrap "checking existing user" e), s)

  unfoldable pub upsert : Time → User → Action S (Unit {0})
  upsert now u s = let entity = from_user now u in upsert_over entity (o.first entity.id s) s

  abbrev pub read_row : Result Row → Result User
  read_row (ok row) = ok (to_domain row)
  read_row (err e) =
      if is_error e record_not_found
      then err (sentinel user_not_found)
      else err (wrap "database query" e)

  unfoldable pub get_by_id : String → S → Result User
  get_by_id id s = read_row (o.first id s)
