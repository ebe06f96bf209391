-- ===== src/Auth/ProxyResolver/Owner.antt =====
-- Whose request a proxy key serves: the storage's answer is checked against the owner, the cached
-- answer is not.
use majordomo_steward.Prelude.{
  ℕ, ◌+◌, ◌<◌, Str, true, Option, none, some, ◌≡◌, refl, ◌∙◌, ap, ◌⊎◌, inl, inr, arith, has_prefix,
}
use majordomo_steward.Auth.Lru.{Lru}
use majordomo_steward.Auth.ProxyResolver.{
  ProxyError, ProxyKey, CachedProxyKey, Answers, Resolved, Caches, Outcome, check_proxy_key,
  decrypt_mapping, proxy_key_prefix, prov_cache_key, look_up, store, answer_with, resolve_proxy_key,
}

check_proxy_key_sound :
    (answer : Option (Option ProxyKey)) (owner : ℕ) (key : ProxyKey)
    → check_proxy_key answer owner ≡ inr key
    → (answer ≡ some (some key)) × (key.is_active ≡ true) × (key.majordomo_api_key_id ≡ owner)
unfolding check_proxy_key
check_proxy_key_sound none owner key h = absurd (cc)
check_proxy_key_sound (some none) owner key h = absurd (cc)
check_proxy_key_sound (some (some k)) owner key h = ground arith

decrypt_mapping_sound :
    (decrypt : Str → Option Str) (mapping : Option (Option Str)) (key : Str)
    → decrypt_mapping decrypt mapping ≡ inr key
    → (encrypted : Str) × (mapping ≡ some (some encrypted)) × (decrypt encrypted ≡ some key)
unfolding decrypt_mapping
decrypt_mapping_sound decrypt none key h = absurd (cc)
decrypt_mapping_sound decrypt (some none) key h = absurd (cc)
decrypt_mapping_sound decrypt (some (some encrypted)) key h = (encrypted, refl, ground arith)

-- A call that was answered from the storage: what the answers were.
pub record FromStorage (decrypt : Str → Option Str) (answers : Answers) (owner : ℕ) (r : Resolved)
    : Type 0 where
  pub key : ProxyKey
  pub encrypted : Str
  pub stored : answers.proxy_key ≡ some (some key)
  pub active : key.is_active ≡ true
  pub owned : key.majordomo_api_key_id ≡ owner
  pub mapped : answers.mapping ≡ some (some encrypted)
  pub decrypted : decrypt encrypted ≡ some r.0
  pub identified : r.1 ≡ some key.id

module _ (keys : Lru CachedProxyKey) (provs : Lru Str) (hash_api_key : Str → Str)
    (decrypt : Str → Option Str) (cache_ttl : ℕ) where
  abbrev State : Type 0
  State = Caches keys provs hash_api_key decrypt cache_ttl

  -- The proxy key and the provider key of a call that reached the end of the code.
  record Accepted (c : State) (hash provider : Str) (answers : Answers) (owner done : ℕ)
      (r : Resolved) (after : State) : Type 0 where
    key : ProxyKey
    checked : check_proxy_key answers.proxy_key owner ≡ inr key
    opened : decrypt_mapping decrypt answers.mapping ≡ inr r.0
    identified : r.1 ≡ some key.id
    caches : after ≡ store keys provs hash_api_key decrypt cache_ttl c hash provider key r.0 done

  accept_sound :
      (c : State) (hash provider : Str) (answers : Answers) (owner done : ℕ) (r : Resolved)
      (k : ProxyError ⊎ ProxyKey) (m : ProxyError ⊎ Str)
      → check_proxy_key answers.proxy_key owner ≡ k
      → decrypt_mapping decrypt answers.mapping ≡ m
      → (answer_with keys provs hash_api_key decrypt cache_ttl hash provider owner answers done
          (none, c)).result
        ≡ inr r
      → Accepted c hash provider answers owner done r
          (answer_with keys provs hash_api_key decrypt cache_ttl hash provider owner answers done
            (none, c)).caches
  accept_sound c hash provider answers owner done r (inl e) m ek em h = absurd (cc (rw ek at h))
  accept_sound c hash provider answers owner done r (inr key) (inl e) ek em h =
      absurd (cc (rw (ek, em) at h))
  accept_sound c hash provider answers owner done r (inr key) (inr s) ek em h = record {
    key = key;
    checked = ek;
    opened = ground (arith, em, rw (ek, em) at h);
    identified = ground (arith, rw (ek, em) at h);
    caches = rw (ek, em) (ground (arith, rw (ek, em) at h));
  }

  Accepted-FromStorage :
      (c : State) (hash provider : Str) (answers : Answers) (owner done : ℕ) (r : Resolved)
      (after : State)
      → Accepted c hash provider answers owner done r after
      → FromStorage decrypt answers owner r
  Accepted-FromStorage c hash provider answers owner done r after a =
      let (stored, active, owned) = check_proxy_key_sound answers.proxy_key owner a.key a.checked in
      let (encrypted, mapped, decrypted) =
        decrypt_mapping_sound decrypt answers.mapping r.0 a.opened in
      record {
        key = a.key;
        encrypted = encrypted;
        stored = stored;
        active = active;
        owned = owned;
        mapped = mapped;
        decrypted = decrypted;
        identified = a.identified;
      }

  look_up-miss :
      (c : State) (hash provider : Str) (now : ℕ)
      → keys.peek c.key_cache hash ≡ none
      → (look_up keys provs hash_api_key decrypt cache_ttl c hash provider now).0 ≡ none
  unfolding look_up
  look_up-miss c hash provider now h = ground (arith, keys.get-value c.key_cache hash)

  look_up-hit :
      (c : State) (hash provider : Str) (now : ℕ) (key : Str) (entry : CachedProxyKey)
      → keys.peek c.key_cache hash ≡ some entry
      → provs.peek c.prov_cache (prov_cache_key hash provider) ≡ some key
      → now < entry.expires_at
      → (look_up keys provs hash_api_key decrypt cache_ttl c hash provider now).0
        ≡ some (key, some entry.proxy_key_id)
  unfolding look_up
  look_up-hit c hash provider now key entry h k t = ground (
    arith,
    keys.get-value c.key_cache hash,
    provs.get-value c.prov_cache (prov_cache_key hash provider),
  )

  abbrev call :
      State → Str → Str → ℕ → ℕ → Answers → ℕ → Outcome keys provs hash_api_key decrypt cache_ttl
  call = resolve_proxy_key keys provs hash_api_key decrypt cache_ttl

  uncached-Accepted :
      (c : State) (auth_key provider : Str) (owner now : ℕ) (answers : Answers) (done : ℕ)
      (r : Resolved)
      → has_prefix auth_key proxy_key_prefix ≡ true
      → keys.peek c.key_cache (hash_api_key auth_key) ≡ none
      → (call c auth_key provider owner now answers done).result ≡ inr r
      → Accepted
          (look_up keys provs hash_api_key decrypt cache_ttl c
            (hash_api_key auth_key)
            provider
            now).1
          (hash_api_key auth_key)
          provider
          answers
          owner
          done
          r
          (call c auth_key provider owner now answers done).caches
  unfolding resolve_proxy_key
  uncached-Accepted c auth_key provider owner now answers done r p miss h =
      rw (p, look_up-miss c (hash_api_key auth_key) provider now miss)
        (accept_sound _ _ _ _ _ _ _ _ _ refl refl
          (rw (p, look_up-miss c (hash_api_key auth_key) provider now miss) at h))

  -- For every state of the caches in which the proxy key's hash is not held, as after InvalidateCache:
  -- a provider key that a call for a proxy key returns is the decryption of what the storage maps to
  -- the provider, and the stored proxy key is active and belongs to the Majordomo key of the call.
  pub resolve-FromStorage :
      (c : State) (auth_key provider : Str) (owner now : ℕ) (answers : Answers) (done : ℕ)
      (r : Resolved)
      → has_prefix auth_key proxy_key_prefix ≡ true
      → keys.peek c.key_cache (hash_api_key auth_key) ≡ none
      → (resolve_proxy_key keys provs hash_api_key decrypt cache_ttl c auth_key provider owner now
          answers done).result
        ≡ inr r
      → FromStorage decrypt answers owner r
  resolve-FromStorage c auth_key provider owner now answers done r p miss h =
      Accepted-FromStorage _ _ _ _ _ _ _ _
        (uncached-Accepted c auth_key provider owner now answers done r p miss h)

  -- What the two additions have stored serves the next call, whoever makes it.
  stored-hit :
      (c : State) (auth_key provider : Str) (other later : ℕ) (answers : Answers) (done' : ℕ)
      (key : ProxyKey) (s : Str) (done : ℕ)
      → has_prefix auth_key proxy_key_prefix ≡ true
      → later < done + cache_ttl
      → (call
          (store keys provs hash_api_key decrypt cache_ttl c
            (hash_api_key auth_key)
            provider
            key
            s
            done)
          auth_key
          provider
          other
          later
          answers
          done').result
        ≡ inr (s, some key.id)
  unfolding resolve_proxy_key store
  stored-hit c auth_key provider other later answers done' key s done p t =
      let h : Str = hash_api_key auth_key in
      let entry : CachedProxyKey = record {
        proxy_key_id = key.id;
        majordomo_api_key_id = key.majordomo_api_key_id;
        is_active = key.is_active;
        revoked_at = key.revoked_at;
        expires_at = done + cache_ttl;
      } in
      let c' : State = store keys provs hash_api_key decrypt cache_ttl c h provider key s done in
      let hit =
        look_up-hit c' h provider later s entry (keys.peek-add_self c.key_cache h entry)
          (provs.peek-add_self c.prov_cache (prov_cache_key h provider) s) t in
      rw (p, hit)

  -- For every such call that returns a provider key: until the time-to-live is over, the next call
  -- with the proxy key and the provider returns the same provider key for every other Majordomo key,
  -- whatever the storage would answer. The owner is not compared.
  pub resolve_ignores_owner :
      (c : State) (auth_key provider : Str) (owner now : ℕ) (answers : Answers) (done : ℕ)
      (r : Resolved) (other later : ℕ) (answers' : Answers) (done' : ℕ)
      → has_prefix auth_key proxy_key_prefix ≡ true
      → keys.peek c.key_cache (hash_api_key auth_key) ≡ none
      → (resolve_proxy_key keys provs hash_api_key decrypt cache_ttl c auth_key provider owner now
          answers done).result
        ≡ inr r
      → later < done + cache_ttl
      → (resolve_proxy_key keys provs hash_api_key decrypt cache_ttl
          (resolve_proxy_key keys provs hash_api_key decrypt cache_ttl c auth_key provider owner now
            answers done).caches
          auth_key
          provider
          other
          later
          answers'
          done').result
        ≡ inr r
  resolve_ignores_owner c auth_key provider owner now answers done r other later answers' done' p
        miss h t =
      cached_answer (uncached-Accepted c auth_key provider owner now answers done r p miss h)
    where
      cached_answer :
          Accepted
            (look_up keys provs hash_api_key decrypt cache_ttl c
              (hash_api_key auth_key)
              provider
              now).1
            (hash_api_key auth_key)
            provider
            answers
            owner
            done
            r
            (call c auth_key provider owner now answers done).caches
          → (call
              (call c auth_key provider owner now answers done).caches
              auth_key
              provider
              other
              later
              answers'
              done').result
            ≡ inr r
      cached_answer a = rw a.caches (
          stored-hit _ auth_key provider other later answers' done' a.key r.0 done p t
          ∙ ap inr (ground (arith, a.identified)))
