-- ===== src/SharedKernel/ApiKeyService/Revocation.antt =====
-- Whether a revoked API key is still accepted.
use zensor_server.Prelude.{
  ◌+◌, ◌*◌, ◌<◌, second, ◌≡◌, ◌∙◌, sym, inl, inr, String, false, Bool-cases, ◌==◌, ==_iff, ==_refl,
  string_eq, Time, none, some, ok, err, Err, Result-cases, is_ok, arith,
}
use zensor_server.SharedKernel.ApiKey.{ApiKey}
use zensor_server.SharedKernel.ApiKeyService.{
  ApiKeyRepository, ApiKeyLaws, Cache, CacheLaws, World, cache_key, keep_loaded, get_or_set,
  validate, revoke, HoldsEntries, api_key_cache_ttl,
}

module _ {S C : Type 0} (r : ApiKeyRepository S) (laws : ApiKeyLaws r) (c : Cache C)
    (cached : CacheLaws c) (hash : String → String) where
  -- A revocation that went through: the row is deleted, and so is the entry of the cache.
  revoke-ok :
      (id : String) (w : World S C) {key : ApiKey}
      → r.get_by_id id w.store ≡ ok key
      → (revoke r c hash id w).0 ≡ ok tt
      → ((r.delete id w.store).0 ≡ ok tt)
        × ((revoke r c hash id w).1 ≡ record {
          store = (r.delete id w.store).1;
          cache = c.delete (cache_key key.key_hash) w.cache;
        })
  unfolding revoke
  revoke-ok id w {key} e h = elim (Result-cases (r.delete id w.store).0) [
    | inl (_, d) ↦ (d, ground (arith, e, d))
    | inr (_, d) ↦ absurd (ground (arith, e, d, h))
  ]

  lookup-gone :
      (id raw_key : String) (s : S) {key : ApiKey}
      → laws.rows id s ≡ some key
      → hash raw_key ≡ key.key_hash
      → (r.delete id s).0 ≡ ok tt
      → (x : Err) × (r.get_by_hash (hash raw_key) (r.delete id s).1 ≡ err x)
  lookup-gone id raw_key s {key} row same gone =
      elim (Result-cases (r.get_by_hash (hash raw_key) (r.delete id s).1)) [
        | inr (x, e) ↦ (x, e)
        | inl (k, e) ↦
            let (found, hashed) = laws.hash_found (hash raw_key) (r.delete id s).1 e in
            elim (Bool-cases (id == k.id)) [
              | inl here ↦ absurd (ground (arith, found, laws.delete_ok id k.id s gone, here))
              | inr there ↦
                  let before : laws.rows k.id s ≡ some k =
                    ground (arith, found, laws.delete_ok id k.id s gone, there) in
                  absurd (
                    ground (
                      arith,
                      there,
                      ==_iff id k.id,
                      laws.hash_unique id k.id s row before (sym same ∙ sym hashed),
                    ))
            ]
      ]

  -- When `Revoke` has gone through without another call in between, the next `Validate` of that key
  -- fails, also if the key was in the cache.
  pub revoked_key_refused :
      (now : Time) (id raw_key : String) (w : World S C) {key : ApiKey}
      → r.get_by_id id w.store ≡ ok key
      → hash raw_key ≡ key.key_hash
      → (revoke r c hash id w).0 ≡ ok tt
      → is_ok (validate r c hash now raw_key (revoke r c hash id w).1).0 ≡ false
  unfolding validate get_or_set
  revoked_key_refused now id raw_key w {key} e same h =
      let (gone, after) = revoke-ok id w e h in
      let (x, missing) = lookup-gone id raw_key w.store (laws.id_found id w.store e) same gone in
      rw (after, same)
        (ground (arith, cached.deleted now (cache_key key.key_hash) w.cache, missing, same))

  revoke-row_gone :
      (id : String) (w : World S C)
      → (revoke r c hash id w).0 ≡ ok tt
      → laws.rows id (revoke r c hash id w).1.store ≡ none
  unfolding revoke
  revoke-row_gone id w h = elim (Result-cases (r.get_by_id id w.store)) [
    | inr (_, e) ↦ absurd (ground (arith, e, h))
    | inl (key, e) ↦
        let (gone, after) = revoke-ok id w e h in
        rw after (ground (arith, laws.delete_ok id id w.store gone, ==_refl id))
  ]

  -- Over a cache that drops no entry before its time, a `Validate` that has read the row of a key
  -- before `Revoke` and writes the cache after it brings the key back: for 24 hours from that write
  -- `Validate` accepts the key, whose row is gone.
  pub revoked_key_revived :
      (now later : Time) (raw_key : String) (w : World S C) {key : ApiKey}
      → HoldsEntries c
      → r.get_by_hash (hash raw_key) w.store ≡ ok key
      → (revoke r c hash key.id w).0 ≡ ok tt
      → later < now + 24 * (3600 * second)
      → let late =
          keep_loaded r c hash now
            (cache_key (hash raw_key))
            (r.get_by_hash (hash raw_key) w.store)
            (revoke r c hash key.id w).1 in
        ((validate r c hash later raw_key late.1).0 ≡ ok key)
        × (laws.rows key.id late.1.store ≡ none)
  unfolding validate get_or_set
  revoked_key_revived now later raw_key w {key} holds e h soon =
      let held =
        holds now later (cache_key (hash raw_key)) key api_key_cache_ttl
          (revoke r c hash key.id w).1.cache soon in
      (rw e (ground (arith, held)), rw e (revoke-row_gone key.id w h))
