-- ===== src/Auth/ProxyResolver.antt =====
-- internal/auth/proxy_resolver.go: proxy keys to decrypted provider keys, behind two LRU caches.
-- The hash, the decryption (`none` for an error) and the caches are parameters.
pub mod Owner
use majordomo_steward.Prelude.{
  ℕ, ◌+◌, Str, lit, Bool, true, false, not, Option, none, some, List, [], ◌∷◌, ◌++◌, ltb, ◌==◌,
  has_prefix, if◌then◌else◌, ◌⊎◌, inl, inr,
}
use majordomo_steward.Auth.Lru.{Lru}
use majordomo_steward.Auth.Resolver.{is_present}

pub data ProxyError : Type 0 where
  lookup_failed proxy_key_not_found proxy_key_revoked proxy_key_inactive : ProxyError
  proxy_key_wrong_owner mapping_failed no_provider_mapping decrypt_failed : ProxyError

abbrev pub proxy_key_prefix : Str
proxy_key_prefix = lit "mdm_pk_"

-- The fields of models.ProxyKey that the resolver reads.
pub record ProxyKey : Type 0 where
  pub id : ℕ
  pub majordomo_api_key_id : ℕ
  pub is_active : Bool
  pub revoked_at : Option ℕ

pub record CachedProxyKey : Type 0 where
  pub proxy_key_id : ℕ
  pub majordomo_api_key_id : ℕ
  pub is_active : Bool
  pub revoked_at : Option ℕ
  pub expires_at : ℕ

-- What the storage would answer in a call: the proxy key of the hash, and the encrypted key that is
-- mapped to the provider; `none` for an error, `some none` for nothing found.
pub record Answers : Type 0 where
  pub proxy_key : Option (Option ProxyKey)
  pub mapping : Option (Option Str)

-- A provider key, which is [] with no identifier where the key is no proxy key.
abbrev pub Resolved : Type 0
Resolved = Str × Option ℕ

-- The checks on the proxy key that the storage answers.
unfoldable pub check_proxy_key : Option (Option ProxyKey) → ℕ → ProxyError ⊎ ProxyKey
check_proxy_key none majordomo_key_id = inl lookup_failed
check_proxy_key (some none) majordomo_key_id = inl proxy_key_not_found
check_proxy_key (some (some key)) majordomo_key_id =
    if not key.is_active
    then (if is_present key.revoked_at then inl proxy_key_revoked else inl proxy_key_inactive)
    else if not (key.majordomo_api_key_id == majordomo_key_id)
    then inl proxy_key_wrong_owner
    else inr key

-- The look-up and the decryption of the mapping.
unfoldable pub decrypt_mapping : (Str → Option Str) → Option (Option Str) → ProxyError ⊎ Str
decrypt_mapping decrypt none = inl mapping_failed
decrypt_mapping decrypt (some none) = inl no_provider_mapping
decrypt_mapping decrypt (some (some encrypted)) = elim (decrypt encrypted) [
  | none ↦ inl decrypt_failed
  | some key ↦ inr key
]

-- The key of the second cache: the hash, a colon and the provider.
abbrev pub prov_cache_key : Str → Str → Str
prov_cache_key hash provider = hash ++ (lit ":" ++ provider)

module _ (keys : Lru CachedProxyKey) (provs : Lru Str) (hash_api_key : Str → Str)
    (decrypt : Str → Option Str) (cache_ttl : ℕ) where
  pub record Caches : Type 0 where
    pub key_cache : keys.Cache
    pub prov_cache : provs.Cache

  -- A call's result, the caches after it, and the proxy key whose last use is recorded.
  pub record Outcome : Type 0 where
    pub result : ProxyError ⊎ Resolved
    pub caches : Caches
    pub last_used : Option ℕ

  -- The look into both caches. The second is read only if the first has an entry.
  unfoldable pub look_up : Caches → Str → Str → ℕ → Option Resolved × Caches
  look_up c hash provider now =
      let (decrypted, prov_cache') = provs.get c.prov_cache (prov_cache_key hash provider) in
      elim decrypted [
        | none ↦ (none, record c { prov_cache = prov_cache' })
        | some key ↦
            let (pkc, key_cache') = keys.get c.key_cache hash in
            let c' : Caches = record { key_cache = key_cache'; prov_cache = prov_cache' } in
            elim pkc [
              | none ↦ (none, c')
              | some entry ↦
                  if ltb now entry.expires_at
                  then (some (key, some entry.proxy_key_id), c')
                  else (none, c')
            ]
      ]

  -- The two additions after a successful look-up in the storage.
  unfoldable pub store : Caches → Str → Str → ProxyKey → Str → ℕ → Caches
  store c hash provider key decrypted done = record {
    key_cache = keys.add c.key_cache hash (record {
      proxy_key_id = key.id;
      majordomo_api_key_id = key.majordomo_api_key_id;
      is_active = key.is_active;
      revoked_at = key.revoked_at;
      expires_at = done + cache_ttl;
    });
    prov_cache = provs.add c.prov_cache (prov_cache_key hash provider) decrypted;
  }

  abbrev pub fail : ProxyError → Caches → Outcome
  fail e c = record { result = inl e; caches = c; last_used = none }

  abbrev pub accept : Caches → Str → Str → ProxyKey → ℕ → ProxyError ⊎ Str → Outcome
  accept c hash provider key done (inl e) = fail e c
  accept c hash provider key done (inr decrypted) = record {
    result = inr (decrypted, some key.id);
    caches = store c hash provider key decrypted done;
    last_used = some key.id;
  }

  abbrev pub with_mapping :
      Caches → Str → Str → Option (Option Str) → ℕ → ProxyError ⊎ ProxyKey → Outcome
  with_mapping c hash provider mapping done (inl e) = fail e c
  with_mapping c hash provider mapping done (inr key) =
      accept c hash provider key done (decrypt_mapping decrypt mapping)

  abbrev pub answer_with : Str → Str → ℕ → Answers → ℕ → Option Resolved × Caches → Outcome
  answer_with hash provider owner answers done (some r, c) = record {
    result = inr r;
    caches = c;
    last_used = none;
  }
  answer_with hash provider owner answers done (none, c) =
      with_mapping c hash provider answers.mapping done (check_proxy_key answers.proxy_key owner)

  -- `now` is the time of the look into the caches, `done` that of the additions.
  unfoldable pub resolve_proxy_key : Caches → Str → Str → ℕ → ℕ → Answers → ℕ → Outcome
  resolve_proxy_key c auth_key provider majordomo_key_id now answers done =
      if not (has_prefix auth_key proxy_key_prefix)
      then record { result = inr ([], none); caches = c; last_used = none }
      else (let hash = hash_api_key auth_key in
          answer_with hash provider majordomo_key_id answers done (look_up c hash provider now))

  unfoldable pub invalidate_cache : Caches → Str → Caches
  invalidate_cache c hash = record c { key_cache = keys.remove c.key_cache hash }
