-- ===== src/SharedKernel/ApiKeyService.antt =====
-- internal/shared_kernel/usecases/api_key_service.go over its repository and a cache of API keys. The
-- cache is Ristretto behind internal/infra/cache/cache.go, whose `GetOrSet` is `get_or_set`; contexts
-- that are cancelled are left out.
pub mod Revocation
mod Tests
use zensor_server.Prelude.{
  ℕ, ◌+◌, ◌*◌, ◌<◌, ◌≡◌, String, Bool, true, false, ◌==◌, string_eq, Time, second, Option, none,
  some, List, [], ◌∷◌, if◌then◌else◌, Result, ok, err, Err, is_error, wrap, wrap_error, sentinel,
  Action, api_key_not_found, api_key_duplicated,
}
use Prim.Native.String.{◌++◌ as text_append}
use zensor_server.SharedKernel.ApiKey.{ApiKey, with_name, with_created_by, build}

pub record ApiKeyRepository (S : Type 0) : Type 0 where
  pub create : ApiKey → Action S (Unit {0})
  pub get_by_hash : String → S → Result ApiKey
  pub get_by_id : String → S → Result ApiKey
  pub get_by_name : String → S → Result ApiKey
  pub delete : String → Action S (Unit {0})

-- `Get` at an instant, `Set` at an instant with a time to live, and `Delete`.
pub record Cache (C : Type 0) : Type 0 where
  pub get : Time → String → C → Option ApiKey
  pub set : Time → String → ApiKey → ℕ → C → C
  pub delete : String → C → C

pub record World (S C : Type 0) : Type 0 where
  pub store : S
  pub cache : C

abbrev pub api_key_cache_ttl : ℕ
api_key_cache_ttl = 24 * (3600 * second)

abbrev pub cache_key : String → String
cache_key hash = text_append "apikey:" hash

module _ {S C : Type 0} (r : ApiKeyRepository S) (c : Cache C) (hash : String → String) where
  -- The write of `GetOrSet`, after its loader.
  abbrev pub keep_loaded : Time → String → Result ApiKey → World S C → Result ApiKey × World S C
  keep_loaded now key (err e) w = (err e, w)
  keep_loaded now key (ok value) w =
      (ok value, record w { cache = c.set now key value api_key_cache_ttl w.cache })

  -- The function that `GetOrSet` runs for one caller at a time.
  abbrev pub load : Time → String → (S → Result ApiKey) → World S C → Result ApiKey × World S C
  load now key loader w = elim (c.get now key w.cache) [
    | some value ↦ (ok value, w)
    | none ↦ keep_loaded now key (loader w.store) w
  ]

  unfoldable pub get_or_set :
      Time → String → (S → Result ApiKey) → World S C → Result ApiKey × World S C
  get_or_set now key loader w = elim (c.get now key w.cache) [
    | some value ↦ (ok value, w)
    | none ↦ load now key loader w
  ]

  -- `Validate`
  unfoldable pub validate : Time → String → World S C → Result ApiKey × World S C
  validate now raw_key w =
      get_or_set now (cache_key (hash raw_key)) (r.get_by_hash (hash raw_key)) w

  -- What `Revoke` does once the row has been deleted, or not.
  abbrev pub forget : ApiKey → Result (Unit {0}) × S → World S C → Result (Unit {0}) × World S C
  forget key (err e, s) w = (err (wrap "deleting api key" e), record w { store = s })
  forget key (ok _, s) w =
      (ok tt, record { store = s; cache = c.delete (cache_key key.key_hash) w.cache })

  -- `Revoke`
  unfoldable pub revoke : String → World S C → Result (Unit {0}) × World S C
  revoke id w = elim (r.get_by_id id w.store) [
    | err e ↦ (err e, w)
    | ok key ↦ forget key (r.delete id w.store) w
  ]

  -- The last call of `Create`.
  abbrev pub created :
      ApiKey × String → Result (Unit {0}) × S → World S C → Result (ApiKey × String) × World S C
  created key (ok _, s) w = (ok key, record w { store = s })
  created key (err e, s) w = (err (wrap "creating api key" e), record w { store = s })

  -- The check of the name in `Create`.
  abbrev pub create_named :
      ApiKey × String → Result ApiKey → World S C → Result (ApiKey × String) × World S C
  create_named key (ok _) w = (err (sentinel api_key_duplicated), w)
  create_named key (err e) w =
      if is_error e api_key_not_found
      then created key (r.create key.0 w.store) w
      else (err (wrap "checking api key name" e), w)

  -- `Create`, with the random text and the identifier of the builder.
  unfoldable pub create :
      Result String
      → String
      → Time
      → String
      → String
      → World S C
      → Result (ApiKey × String) × World S C
  create random uuid now name created_by w =
      elim (build hash random uuid now (with_name name ∷ with_created_by created_by ∷ [])) [
        | err e ↦ (err e, w)
        | ok key ↦ create_named key (r.get_by_name key.0.name w.store) w
      ]

-- The rows of API keys: a lookup that answers answers with a row, a deletion that succeeds removes
-- the row and no other, and no two rows have one hash.
pub record ApiKeyLaws {S : Type 0} (r : ApiKeyRepository S) : Type 0 where
  pub rows : String → S → Option ApiKey
  pub hash_found :
      (h : String) (s : S) {k : ApiKey}
      → r.get_by_hash h s ≡ ok k
      → (rows k.id s ≡ some k) × (k.key_hash ≡ h)
  pub id_found : (id : String) (s : S) {k : ApiKey} → r.get_by_id id s ≡ ok k → rows id s ≡ some k
  pub delete_ok :
      (id other : String) (s : S)
      → (r.delete id s).0 ≡ ok tt
      → rows other (r.delete id s).1 ≡ (if id == other then none else rows other s)
  pub hash_unique :
      (i j : String) (s : S) {k l : ApiKey}
      → rows i s ≡ some k
      → rows j s ≡ some l
      → k.key_hash ≡ l.key_hash
      → i ≡ j

-- A cache that drops no entry before its time: a key that was set is found until then.
abbrev pub HoldsEntries : {C : Type 0} → Cache C → Type 0
HoldsEntries {C} c =
    (now later : Time) (key : String) (value : ApiKey) (ttl : ℕ) (m : C)
    → later < now + ttl
    → c.get later key (c.set now key value ttl m) ≡ some value

-- A key that was deleted is not found, at any time.
pub record CacheLaws {C : Type 0} (c : Cache C) : Type 0 where
  pub deleted : (now : Time) (key : String) (m : C) → c.get now key (c.delete key m) ≡ none
