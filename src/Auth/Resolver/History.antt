-- ===== src/Auth/Resolver/History.antt =====
-- However the calls of a resolver follow one another, an accepted key was active in the storage, and
-- not longer ago than the cache's time-to-live.
use majordomo_steward.Prelude.{
  ℕ, ◌+◌, ◌≤◌, Str, true, Option, none, some, List, [], ◌∷◌, ◌≡◌, refl, sym, inl, inr, arith,
  Bool-cases, In, here, there, ok,
}
use majordomo_steward.Auth.Lru.{Lru, peek-add, peek-remove_sub}
use majordomo_steward.Auth.Resolver.{
  ApiKey, ApiKeyInfo, CachedKey, Answer, Call, resolve, invalidate, info_of, get_from_cache,
  resolve_from_storage, resolve_found, resolve_api_key, invalidate_cache, step, after,
}

module _ (lru : Lru CachedKey) (hash_api_key : Str → Str) (cache_ttl : ℕ) where
  open lru use {Cache, peek, get, add, remove}

  -- An earlier call in which the storage answered with an active key of this hash.
  pub record Backed (past : List Call) (hash : Str) (info : Option ApiKeyInfo) (expires : ℕ)
      : Type 0 where
    pub api_key : Str
    pub now : ℕ
    pub key : ApiKey
    pub done : ℕ
    pub called : In (resolve api_key now (some (some key)) done) past
    pub digest : hash_api_key api_key ≡ hash
    pub active : key.is_active ≡ true
    pub info_eq : info ≡ some (info_of hash key)
    pub expiry : expires ≡ done + cache_ttl

  Backed-later :
      {past : List Call} {hash : Str} {info : Option ApiKeyInfo} {expires : ℕ} (c : Call)
      → Backed past hash info expires
      → Backed (c ∷ past) hash info expires
  Backed-later c b = record {
    api_key = b.api_key;
    now = b.now;
    key = b.key;
    done = b.done;
    called = there b.called;
    digest = b.digest;
    active = b.active;
    info_eq = b.info_eq;
    expiry = b.expiry;
  }

  -- Every valid entry of the cache is backed.
  abbrev IsBacked : List Call → Cache → Type 0
  IsBacked past c =
      (hash : Str) (e : CachedKey)
      → peek c hash ≡ some e
      → e.is_valid ≡ true
      → Backed past hash e.info e.expires_at

  from_cache-peek :
      (c : Cache) (hash : Str) (now : ℕ) (j : Str) (e : CachedKey)
      → peek (get_from_cache lru hash_api_key cache_ttl c hash now).1 j ≡ some e
      → peek c j ≡ some e
  unfolding get_from_cache
  from_cache-peek c hash now j e h =
      ground (arith, lru.peek-get c hash j, peek-remove_sub lru (get c hash).1 hash j e)

  from_cache-found :
      (c : Cache) (hash : Str) (now : ℕ) (e : CachedKey)
      → (get_from_cache lru hash_api_key cache_ttl c hash now).0 ≡ some e
      → (peek c hash ≡ some e) × (now ≤ e.expires_at)
  unfolding get_from_cache
  from_cache-found c hash now e h = ground (arith, lru.get-value c hash)

  IsBacked-later :
      (past : List Call) (c : Cache) (call : Call) → IsBacked past c → IsBacked (call ∷ past) c
  IsBacked-later past c call b hash e h v = Backed-later call (b hash e h v)

  -- An addition keeps the entries backed if the new one is.
  IsBacked-add :
      (past : List Call) (c : Cache) (k : Str) (x : CachedKey)
      → IsBacked past c
      → (x.is_valid ≡ true → Backed past k x.info x.expires_at)
      → IsBacked past (add c k x)
  IsBacked-add past c k x b new hash e h v = elim (peek-add lru c k hash x e h) [
    | inl (at, eq) ↦ rw (at, sym eq) (new (rw eq v))
    | inr old ↦ b hash e old v
  ]

  from_storage-IsBacked :
      (past : List Call) (c : Cache) (api_key : Str) (now : ℕ) (answer : Answer) (done : ℕ)
      → IsBacked past c
      → IsBacked
          (resolve api_key now answer done ∷ past)
          (resolve_from_storage lru hash_api_key cache_ttl c
            (hash_api_key api_key)
            answer
            done).cache
  unfolding resolve_from_storage
  from_storage-IsBacked past c api_key now none done b = IsBacked-later past c _ b
  from_storage-IsBacked past c api_key now (some none) done b =
      IsBacked-add _ c _ _ (IsBacked-later past c _ b) (λ v. absurd (cc))
  from_storage-IsBacked past c api_key now (some (some key)) done b =
      elim (Bool-cases key.is_active) [
        | inr inactive ↦
            simp inactive (IsBacked-add _ c _ _ (IsBacked-later past c _ b) (λ v. absurd (cc)))
        | inl active ↦ simp active (
            IsBacked-add _ c _ _ (IsBacked-later past c _ b) (λ v. record {
              api_key = api_key;
              now = now;
              key = key;
              done = done;
              called = here;
              digest = refl;
              active = active;
              info_eq = refl;
              expiry = refl;
            }))
      ]

  resolve_found-IsBacked :
      (past : List Call) (r : Option CachedKey × Cache) (api_key : Str) (now : ℕ) (answer : Answer)
      (done : ℕ)
      → IsBacked past r.1
      → IsBacked
          (resolve api_key now answer done ∷ past)
          (resolve_found lru hash_api_key cache_ttl r (hash_api_key api_key) answer done).cache
  unfolding resolve_found
  resolve_found-IsBacked past (none, c) api_key now answer done b =
      from_storage-IsBacked past c api_key now answer done b
  resolve_found-IsBacked past (some entry, c) api_key now answer done b =
      elim (Bool-cases entry.is_valid) [
        | inl v ↦ simp v (IsBacked-later past c _ b)
        | inr n ↦ simp n (IsBacked-later past c _ b)
      ]

  step-IsBacked :
      (past : List Call) (call : Call) (c : Cache)
      → IsBacked past c
      → IsBacked (call ∷ past) (step lru hash_api_key cache_ttl c call)
  unfolding step resolve_api_key
  step-IsBacked past (resolve [] now answer done) c b = IsBacked-later past c _ b
  step-IsBacked past (resolve (x ∷ api_key) now answer done) c b =
      resolve_found-IsBacked past _ (x ∷ api_key) now answer done
        (λ hash e h v. b hash e (from_cache-peek c _ now hash e h) v)
  step-IsBacked past (invalidate k) c b = removed
    where
      removed : IsBacked (invalidate k ∷ past) (invalidate_cache lru hash_api_key cache_ttl c k)
      removed hash e h v =
          Backed-later _
            (b hash e (peek-remove_sub lru c k hash e (unfold invalidate_cache in h)) v)

  after-IsBacked : (past : List Call) → IsBacked past (after lru hash_api_key cache_ttl past)
  unfolding after
  after-IsBacked [] = λ hash e h v. absurd (cc (lru.peek-empty hash))
  after-IsBacked (call ∷ past) = step-IsBacked past call _ (after-IsBacked past)

  -- A call that returns a key's data, and the call that the data is from.
  pub record IsGenuine (past : List Call) (api_key : Str) (now : ℕ) (info : Option ApiKeyInfo)
      : Type 0 where
    pub expires : ℕ
    pub backed : Backed past (hash_api_key api_key) info expires
    pub recent : now ≤ expires

  found-IsGenuine :
      (past : List Call) (r : Option CachedKey × Cache) (api_key : Str) (now : ℕ) (answer : Answer)
      (done : ℕ) (info : Option ApiKeyInfo)
      → now ≤ done
      → ((e : CachedKey)
          → r.0 ≡ some e
          → e.is_valid ≡ true
          → Backed past (hash_api_key api_key) e.info e.expires_at × (now ≤ e.expires_at))
      → (resolve_found lru hash_api_key cache_ttl r (hash_api_key api_key) answer done).result
        ≡ ok info
      → IsGenuine (resolve api_key now answer done ∷ past) api_key now info
  unfolding resolve_found resolve_from_storage
  found-IsGenuine past (some entry, c) api_key now answer done info t b h =
      elim (Bool-cases entry.is_valid) [
        | inr n ↦ absurd (cc (simp n at h))
        | inl v ↦
            let (backed, recent) = b entry refl v in
            let same : entry.info ≡ info = cc (simp v at h) in
            record {
              expires = entry.expires_at;
              backed = Backed-later _ (rw same at backed);
              recent = recent;
            }
      ]
  found-IsGenuine past (none, c) api_key now none done info t b h = absurd (cc)
  found-IsGenuine past (none, c) api_key now (some none) done info t b h = absurd (cc)
  found-IsGenuine past (none, c) api_key now (some (some key)) done info t b h =
      elim (Bool-cases key.is_active) [
        | inr n ↦ absurd (cc (simp n at h))
        | inl active ↦ record {
          expires = done + cache_ttl;
          backed = record {
            api_key = api_key;
            now = now;
            key = key;
            done = done;
            called = here;
            digest = refl;
            active = active;
            info_eq = cc (simp active at h);
            expiry = refl;
          };
          recent = omega arith;
        }
      ]

  -- For every history of calls on a new resolver, and one more call in which the clock does not run
  -- backwards: if it returns a key's data, then in that call or an earlier one the storage answered
  -- with an active key of the same hash, the data is that key's, and the call comes at most the
  -- time-to-live after that answer.
  pub resolve-IsGenuine :
      (past : List Call) (api_key : Str) (now : ℕ) (answer : Answer) (done : ℕ)
      (info : Option ApiKeyInfo)
      → now ≤ done
      → (resolve_api_key lru hash_api_key cache_ttl
          (after lru hash_api_key cache_ttl past)
          api_key
          now
          answer
          done).result
        ≡ ok info
      → IsGenuine (resolve api_key now answer done ∷ past) api_key now info
  unfolding resolve_api_key
  resolve-IsGenuine past [] now answer done info t h = absurd (cc)
  resolve-IsGenuine past (x ∷ api_key) now answer done info t h =
      found-IsGenuine past _ (x ∷ api_key) now answer done info t
        (λ e f v.
          let (held, recent) = from_cache-found _ _ now e f in
          (after-IsBacked past _ e held v, recent))
        h
