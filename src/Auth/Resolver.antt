-- ===== src/Auth/Resolver.antt =====
-- internal/auth/resolver.go: API keys by their hash, with a cache of valid and invalid answers.
-- Times are in the clock's unit; the hash (SHA-256 in hex) and the cache are parameters.
pub mod History
use majordomo_steward.Prelude.{
  ℕ, ◌+◌, Str, Bool, true, false, Option, none, some, List, [], ◌∷◌, ltb, if◌then◌else◌, Result, ok,
  err,
}
use majordomo_steward.Auth.Lru.{Lru}

pub data AuthError : Type 0 where
  invalid_api_key api_key_revoked api_key_inactive storage_error : AuthError

-- The fields of models.APIKey that the resolver reads.
pub record ApiKey : Type 0 where
  pub id : ℕ
  pub name : Str
  pub user_id : Option ℕ
  pub org_id : Option ℕ
  pub is_active : Bool
  pub revoked_at : Option ℕ
  pub deprecated_model_behavior : Str

pub record ApiKeyInfo : Type 0 where
  pub id : ℕ
  pub hash : Str
  pub alias : Option Str
  pub user_id : Option ℕ
  pub org_id : Option ℕ
  pub deprecated_model_behavior : Str

-- `info` is Go's pointer, `none` for nil.
pub record CachedKey : Type 0 where
  pub info : Option ApiKeyInfo
  pub expires_at : ℕ
  pub is_valid : Bool

abbrev pub info_of : Str → ApiKey → ApiKeyInfo
info_of hash key = record {
  id = key.id;
  hash = hash;
  alias = some key.name;
  user_id = key.user_id;
  org_id = key.org_id;
  deprecated_model_behavior = key.deprecated_model_behavior;
}

-- What GetAPIKeyByHash answers: `none` for an error, `some none` for no such key.
abbrev pub Answer : Type 0
Answer = Option (Option ApiKey)

abbrev pub is_present : Option ℕ → Bool
is_present none = false
is_present (some t) = true

-- A call's result, the cache after it, and the key whose last use is recorded.
pub record Outcome (Cache : Type 0) : Type 0 where
  pub result : Result AuthError (Option ApiKeyInfo)
  pub cache : Cache
  pub last_used : Option ℕ

abbrev pub refuse : {Cache : Type 0} → AuthError → Cache → Outcome Cache
refuse e cache = record { result = err e; cache = cache; last_used = none }

abbrev pub resolve_from_cache : {Cache : Type 0} → Cache → CachedKey → Outcome Cache
resolve_from_cache cache entry =
    if entry.is_valid
    then record { result = ok entry.info; cache = cache; last_used = none }
    else refuse api_key_inactive cache

-- The calls of a resolver's life: a resolution with the key, the time, the storage's answer and the
-- time after it; and the invalidation of a hash.
pub data Call : Type 0 where
  resolve : Str → ℕ → Answer → ℕ → Call
  invalidate : Str → Call

module _ (lru : Lru CachedKey) (hash_api_key : Str → Str) (cache_ttl : ℕ) where
  open lru use {Cache, get, add, remove}

  -- getFromCache: an entry whose time has passed is removed.
  unfoldable pub get_from_cache : Cache → Str → ℕ → Option CachedKey × Cache
  get_from_cache cache hash now =
      let (found, cache') = get cache hash in
      elim found [
        | none ↦ (none, cache')
        | some entry ↦
            if ltb entry.expires_at now then (none, remove cache' hash) else (some entry, cache')
      ]

  unfoldable pub cache_valid : Cache → Str → ApiKeyInfo → ℕ → Cache
  cache_valid cache hash info now =
      add cache hash (record { info = some info; expires_at = now + cache_ttl; is_valid = true })

  unfoldable pub cache_invalid : Cache → Str → ℕ → Cache
  cache_invalid cache hash now =
      add cache hash (record { info = none; expires_at = now + cache_ttl; is_valid = false })

  -- The part of ResolveAPIKey after the cache, on what the storage answers; `done` is the time then.
  unfoldable pub resolve_from_storage : Cache → Str → Answer → ℕ → Outcome Cache
  unfolding cache_valid cache_invalid
  resolve_from_storage cache hash none done = refuse storage_error cache
  resolve_from_storage cache hash (some none) done =
      refuse invalid_api_key (cache_invalid cache hash done)
  resolve_from_storage cache hash (some (some key)) done =
      if key.is_active
      then record {
        result = ok (some (info_of hash key));
        cache = cache_valid cache hash (info_of hash key) done;
        last_used = some key.id;
      }
      else refuse (if is_present key.revoked_at then api_key_revoked else api_key_inactive)
          (cache_invalid cache hash done)

  -- What follows the look into the cache.
  unfoldable pub resolve_found : Option CachedKey × Cache → Str → Answer → ℕ → Outcome Cache
  resolve_found (some entry, cache) hash answer done = resolve_from_cache cache entry
  resolve_found (none, cache) hash answer done = resolve_from_storage cache hash answer done

  unfoldable pub resolve_api_key : Cache → Str → ℕ → Answer → ℕ → Outcome Cache
  resolve_api_key cache [] now answer done = refuse invalid_api_key cache
  resolve_api_key cache (c ∷ api_key) now answer done =
      let hash = hash_api_key (c ∷ api_key) in
      resolve_found (get_from_cache cache hash now) hash answer done

  unfoldable pub invalidate_cache : Cache → Str → Cache
  invalidate_cache cache hash = remove cache hash

  unfoldable pub step : Cache → Call → Cache
  step cache (resolve api_key now answer done) =
      (resolve_api_key cache api_key now answer done).cache
  step cache (invalidate hash) = invalidate_cache cache hash

  -- The cache after a history, whose latest call stands first.
  unfoldable pub after : List Call → Cache
  after [] = lru.empty
  after (call ∷ past) = step (after past) call
