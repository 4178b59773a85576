-- ===== src/SharedKernel/ApiKeyService/Tests.antt =====
-- A key that is validated and revoked, in a table of one key and a cache that forgets nothing in time.
use zensor_server.Prelude.{
  ◌+◌, ◌≡◌, refl, String, Bool, false, ◌==◌, ==_iff, string_eq, Time, before, Option, none, some,
  [], ◌∷◌, Dict, lookup, insert, erase, lookup-erase, lookup-insert, if◌then◌else◌, Result, ok, err,
  is_ok, sentinel, api_key_not_found, ==_refl, arith,
}
use zensor_server.SharedKernel.ApiKey.{ApiKey}
use zensor_server.SharedKernel.ApiKeyService.{
  ApiKeyRepository, ApiKeyLaws, Cache, CacheLaws, HoldsEntries, World, cache_key, keep_loaded,
  get_or_set, validate, revoke,
}
use zensor_server.SharedKernel.ApiKeyService.Revocation.{revoked_key_refused, revoked_key_revived}

abbrev Table : Type 0
Table = Option ApiKey

abbrev rows : String → Table → Option ApiKey
rows id none = none
rows id (some k) = if k.id == id then some k else none

abbrev find : (ApiKey → Bool) → Table → Result ApiKey
find p none = err (sentinel api_key_not_found)
find p (some k) = if p k then ok k else err (sentinel api_key_not_found)

abbrev drop : String → Table → Table
drop id none = none
drop id (some k) = if k.id == id then none else some k

abbrev one_row : ApiKeyRepository Table
one_row = record {
  create = λ k s. (ok tt, some k);
  get_by_hash = λ h. find (λ k. k.key_hash == h);
  get_by_id = λ id. find (λ k. k.id == id);
  get_by_name = λ name. find (λ k. k.name == name);
  delete = λ id s. (ok tt, drop id s);
}

find-hash :
    (h : String) (s : Table) {k : ApiKey}
    → find (λ k. k.key_hash == h) s ≡ ok k
    → (rows k.id s ≡ some k) × (k.key_hash ≡ h)
find-hash h none e = absurd (ground (arith, e))
find-hash h (some l) {k} e = ground (arith, ==_iff l.key_hash h, ==_refl k.id, ==_refl l.id, e)

find-id :
    (id : String) (s : Table) {k : ApiKey} → find (λ k. k.id == id) s ≡ ok k → rows id s ≡ some k
find-id id none e = absurd (ground (arith, e))
find-id id (some l) {k} e = ground (arith, e)

drop-rows :
    (id other : String) (s : Table)
    → rows other (drop id s) ≡ (if id == other then none else rows other s)
drop-rows id other none = ground arith
drop-rows id other (some k) = ground (arith, ==_iff k.id id, ==_iff k.id other, ==_iff id other)

rows_unique :
    (i j : String) (s : Table) {k l : ApiKey} → rows i s ≡ some k → rows j s ≡ some l → i ≡ j
rows_unique i j none p q = absurd (ground (arith, p))
rows_unique i j (some m) p q = ground (arith, ==_iff m.id i, ==_iff m.id j, p, q)

abbrev one_row_laws : ApiKeyLaws one_row
one_row_laws = record {
  rows = rows;
  hash_found = λ h s e. find-hash h s e;
  id_found = λ id s e. find-id id s e;
  delete_ok = λ id other s _. drop-rows id other s;
  hash_unique = λ i j s p q _. rows_unique i j s p q;
}

abbrev Entries : Type 0
Entries = Dict String (ApiKey × Time)

abbrev fresh : Time → Option (ApiKey × Time) → Option ApiKey
fresh now none = none
fresh now (some (k, until)) = if before now until then some k else none

abbrev memory : Cache Entries
memory = record {
  get = λ now key m. fresh now (lookup key m);
  set = λ now key k ttl m. insert key (k, now + ttl) m;
  delete = erase;
}

erased : (now : Time) (key : String) (m : Entries) → memory.get now key (erase key m) ≡ none
erased now key m = ground (arith, lookup-erase key key m, ==_refl key)

abbrev memory_laws : CacheLaws memory
memory_laws = record { deleted = erased }

memory_holds : HoldsEntries memory
memory_holds now later key k ttl m h =
    ground (arith, lookup-insert key key (k, now + ttl) m, ==_refl key)

abbrev reversed : String → String
reversed raw_key = if raw_key == "zsk_1" then "h1" else "h0"

abbrev robot : ApiKey
robot = record {
  id = "k1";
  name = "robot";
  key_hash = "h1";
  key_prefix = "zsk_1";
  created_by = "ann";
  created_at = 1;
}

-- The key is in the table and in the cache.
abbrev world : World Table Entries
world = record { store = some robot; cache = (cache_key "h1", (robot, 99)) ∷ [] }

revokes : (revoke one_row memory reversed "k1" world).0 ≡ ok tt
unfolding revoke
revokes = refl

accepted_before : (validate one_row memory reversed 5 "zsk_1" world).0 ≡ ok robot
unfolding validate get_or_set lookup
accepted_before = refl

revoked_key_refused_example :
    is_ok
      (validate one_row memory reversed 6 "zsk_1" (revoke one_row memory reversed "k1" world).1).0
    ≡ false
revoked_key_refused_example =
    revoked_key_refused one_row one_row_laws memory memory_laws reversed 6 "k1" "zsk_1" world refl
      refl revokes

revoked_key_revived_example :
    let late =
      keep_loaded one_row memory reversed 5
        (cache_key "h1")
        (one_row.get_by_hash "h1" (some robot))
        (revoke one_row memory reversed "k1" world).1 in
    ((validate one_row memory reversed 7 "zsk_1" late.1).0 ≡ ok robot)
    × (rows "k1" late.1.store ≡ none)
revoked_key_revived_example =
    revoked_key_revived one_row one_row_laws memory memory_laws reversed 5 7 "zsk_1" world
      memory_holds refl revokes (omega arith)
