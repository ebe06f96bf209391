-- ===== src/RequestLog/ActiveKeys.antt =====
-- internal/repositories/active_keys_cache.go: the metadata keys of an API key that are indexed, with a
-- time-to-live. A set of keys is a list.
use majordomo_steward.Prelude.{
  ℕ, ◌+◌, Bool, Option, none, some, List, [], Str, ltb, update, if◌then◌else◌,
}

pub record ActiveKeysEntry : Type 0 where
  pub keys : List Str
  pub expires_at : ℕ

abbrev pub KeysCache : Type 0
KeysCache = ℕ → Option ActiveKeysEntry

-- What the query gives: an error at once; or the rows that could be scanned, and whether reading them
-- ended without an error.
pub data KeysAnswer : Type 0 where
  query_failed : KeysAnswer
  key_rows : List Str → Bool → KeysAnswer

-- fetchActiveKeys: a failed query gives no keys and no error; none is an error.
unfoldable pub fetch_active_keys : KeysAnswer → Option (List Str)
fetch_active_keys query_failed = some []
fetch_active_keys (key_rows keys complete) = if complete then some keys else none

abbrev pub fresh_keys : ℕ → Option ActiveKeysEntry → Option (List Str)
fresh_keys now none = none
fresh_keys now (some entry) = if ltb now entry.expires_at then some entry.keys else none

abbrev pub cached_keys : ℕ → KeysCache → ℕ → ℕ → Option (List Str) → Option (List Str) × KeysCache
cached_keys ttl cache api_key_id done none = (none, cache)
cached_keys ttl cache api_key_id done (some keys) =
    (some keys, update cache api_key_id (some (record { keys = keys; expires_at = done + ttl })))

-- GetActiveKeys; `done` is the time after the query.
unfoldable pub get_active_keys :
    ℕ → KeysCache → ℕ → ℕ → KeysAnswer → ℕ → Option (List Str) × KeysCache
get_active_keys ttl cache api_key_id now answer done = elim (fresh_keys now (cache api_key_id)) [
  | some keys ↦ (some keys, cache)
  | none ↦ cached_keys ttl cache api_key_id done (fetch_active_keys answer)
]

unfoldable pub invalidate_api_key : KeysCache → ℕ → KeysCache
invalidate_api_key cache api_key_id = update cache api_key_id none

unfoldable pub invalidate_all : KeysCache → KeysCache
invalidate_all cache = λ api_key_id. none
