-- ===== src/Auth/Tests.antt =====
-- Runs of the models of internal/auth, and the theorems at them.
use majordomo_steward.Prelude.{
  Str, lit, true, Option, none, some, List, [], ◌∷◌, ◌≡◌, refl, inr, ok, arith,
}
use majordomo_steward.Auth.Lru.{unbounded}
use majordomo_steward.Auth.Resolver.{
  ApiKey, CachedKey, info_of, Call, resolve, resolve_api_key, after, resolve_found, get_from_cache,
  step, resolve_from_storage,
}
use majordomo_steward.Auth.Resolver.History.{IsGenuine, resolve-IsGenuine}
use majordomo_steward.Auth.ProxyResolver.{
  ProxyKey, CachedProxyKey, Answers, Caches, resolve_proxy_key, look_up, check_proxy_key,
  decrypt_mapping,
}
use majordomo_steward.Auth.ProxyResolver.Owner.{
  FromStorage, resolve-FromStorage, resolve_ignores_owner,
}

-- A hash for the runs: the key itself.
abbrev same_text : Str → Str
same_text key = key

abbrev dev_key : ApiKey
dev_key = record {
  id = 3;
  name = lit "dev";
  user_id = none;
  org_id = some 1;
  is_active = true;
  revoked_at = none;
  deprecated_model_behavior = lit "warn";
}

abbrev dev_text : Str
dev_text = lit "mdm_sk_dev"

-- The storage has answered at time 5; at time 9 it is out of reach.
abbrev one_answer : List Call
one_answer = resolve dev_text 4 (some (some dev_key)) 5 ∷ []

resolve-cached :
    (resolve_api_key
      (unbounded CachedKey)
      same_text
      300
      (after (unbounded CachedKey) same_text 300 one_answer)
      dev_text
      9
      none
      10).result
    ≡ ok (some (info_of dev_text dev_key))
unfolding resolve_api_key resolve_found get_from_cache after step resolve_from_storage
resolve-cached = refl

resolve-IsGenuine_example :
    IsGenuine
      (unbounded CachedKey)
      same_text
      300
      (resolve dev_text 9 none 10 ∷ one_answer)
      dev_text
      9
      (some (info_of dev_text dev_key))
resolve-IsGenuine_example =
    resolve-IsGenuine (unbounded CachedKey) same_text 300 one_answer dev_text 9 none 10
      (some (info_of dev_text dev_key)) (omega arith) resolve-cached

abbrev proxy_text : Str
proxy_text = lit "mdm_pk_1"

abbrev proxy_key : ProxyKey
proxy_key = record { id = 6; majordomo_api_key_id = 3; is_active = true; revoked_at = none }

abbrev stored : Answers
stored = record { proxy_key = some (some proxy_key); mapping = some (some (lit "sealed")) }

-- A decryption for the runs, which drops the first letter.
abbrev unseal : Str → Option Str
unseal [] = none
unseal (c ∷ text) = some text

abbrev TestCaches : Type 0
TestCaches = Caches (unbounded CachedProxyKey) (unbounded Str) same_text unseal 300

abbrev no_caches : TestCaches
no_caches = record { key_cache = λ k. none; prov_cache = λ k. none }

resolve-stored :
    (resolve_proxy_key
      (unbounded CachedProxyKey)
      (unbounded Str)
      same_text
      unseal
      300
      no_caches
      proxy_text
      (lit "openai")
      3
      9
      stored
      10).result
    ≡ inr (lit "ealed", some 6)
unfolding resolve_proxy_key look_up check_proxy_key decrypt_mapping
resolve-stored = refl

resolve-FromStorage_example : FromStorage unseal stored 3 (lit "ealed", some 6)
resolve-FromStorage_example =
    resolve-FromStorage (unbounded CachedProxyKey) (unbounded Str) same_text unseal 300 no_caches
      proxy_text (lit "openai") 3 9 stored 10 (lit "ealed", some 6) refl refl resolve-stored

-- A call of another owner, for whom the storage would refuse.
resolve_ignores_owner_example :
    (resolve_proxy_key
      (unbounded CachedProxyKey)
      (unbounded Str)
      same_text
      unseal
      300
      (resolve_proxy_key
        (unbounded CachedProxyKey)
        (unbounded Str)
        same_text
        unseal
        300
        no_caches
        proxy_text
        (lit "openai")
        3
        9
        stored
        10).caches
      proxy_text
      (lit "openai")
      4
      20
      stored
      21).result
    ≡ inr (lit "ealed", some 6)
resolve_ignores_owner_example =
    resolve_ignores_owner (unbounded CachedProxyKey) (unbounded Str) same_text unseal 300 no_caches
      proxy_text (lit "openai") 3 9 stored 10 (lit "ealed", some 6) 4 20 stored 21 refl refl
      resolve-stored (omega arith)
