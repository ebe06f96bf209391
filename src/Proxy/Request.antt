-- ===== src/Proxy/Request.antt =====
-- The first stages of ServeHTTP of internal/proxy/handler.go: the key, the body, the provider and its
-- base URL, the policy and the proxy key. An error is the refusal that the client gets.
use majordomo_steward.Prelude.{
  ℕ, ◌||◌, Option, none, some, List, [], ◌∷◌, ◌++◌, Str, lit, str_eq, lookup, if◌then◌else◌, Result,
  ok, err, panic, out_of_fuel, ◌>>=◌, ◌⊎◌, inl, inr,
}
use majordomo_steward.Provider.{
  ProviderInfo, provider_name, bedrock, bedrock_mantle, unknown, detect, normalize_openai_path,
}
use majordomo_steward.Auth.Resolver.{ApiKeyInfo, AuthError}
use majordomo_steward.Auth.ProxyResolver.{ProxyError, Resolved}
use majordomo_steward.Proxy.Headers.{Header, extract_headers}
use majordomo_steward.Proxy.Region.{resolve_bedrock_region}
use majordomo_steward.Proxy.RequestLog.{ProviderKeyInfo}

abbrev pub first_or_empty : List Str → Str
first_or_empty [] = []
first_or_empty (v ∷ values) = v

-- Header.Get, Header.Del and Header.Set of net/http, on canonical names.
abbrev pub get : Str → Header → Str
get name [] = []
get name ((j, values) ∷ h) = if str_eq j name then first_or_empty values else get name h

abbrev pub del : Str → Header → Header
del name [] = []
del name ((j, values) ∷ h) = if str_eq j name then del name h else (j, values) ∷ del name h

abbrev pub set : Str → Str → Header → Header
set name value h = (name, value ∷ []) ∷ del name h

-- The parts of an http.Request that the handler reads; `body` is none where it cannot be read.
pub record Request : Type 0 where
  pub method : Str
  pub path : Str
  pub query : Str
  pub host : Str
  pub header : Header
  pub body : Option Str

-- The status and the message of WriteJSONError, which is also what a PolicyViolation holds.
pub record Refusal : Type 0 where
  pub status : ℕ
  pub message : Str

abbrev pub refusal : ℕ → Str → Refusal
refusal status message = record { status = status; message = message }

-- A call that returns or panics, and has no error of its own.
abbrev pub lifted : {A : Type 0} → Result (Unit {0}) A → Result Refusal A
lifted (ok a) = ok a
lifted (err e) = panic
lifted panic = panic
lifted out_of_fuel = out_of_fuel

-- The resolved key. A valid answer without key data would be a nil pointer, which the handler
-- dereferences.
abbrev pub authorized : Result AuthError (Option ApiKeyInfo) → Result Refusal ApiKeyInfo
authorized (ok (some info)) = ok info
authorized (ok none) = panic
authorized (err e) = err (refusal 401 (lit "unauthorized"))
authorized panic = panic
authorized out_of_fuel = out_of_fuel

abbrev pub text_if : Str → Option Str
text_if [] = none
text_if (c ∷ s) = some (c ∷ s)

abbrev pub hashed_if : (Str → Str) → Str → Option Str
hashed_if hash_api_key [] = none
hashed_if hash_api_key (c ∷ s) = some (hash_api_key (c ∷ s))

unfoldable pub extract_provider_key_info : (Str → Str) → Header → ProviderKeyInfo
extract_provider_key_info hash_api_key h = record {
  hash = hashed_if hash_api_key (get (lit "Authorization") h);
  alias = text_if (get (lit "X-Majordomo-Provider-Alias") h);
}

abbrev pub read_body : Option Str → Result Refusal Str
read_body none = err (refusal 400 (lit "failed to read request body"))
read_body (some body) = ok body

abbrev pub region_missing : Refusal
region_missing = refusal 400 (
    lit
      "Bedrock requests require either an X-Majordomo-Bedrock-Region header or a Host header of the form bedrock-runtime.<region>.amazonaws.com")

abbrev pub endpoint_of : ProviderInfo → Option Str → Result Refusal ProviderInfo
endpoint_of info none = err region_missing
endpoint_of info (some region) =
    if str_eq (provider_name info.provider) (provider_name bedrock_mantle)
    then ok (record info {
      base_url = lit "https://bedrock-mantle." ++ (region ++ lit ".api.aws/anthropic");
    })
    else ok (record info {
      base_url = lit "https://bedrock-runtime." ++ (region ++ lit ".amazonaws.com");
    })

-- The region of the two Bedrock providers gives their base URL; that of the others stays.
unfoldable pub with_endpoint : Request → ProviderInfo → Result Refusal ProviderInfo
with_endpoint r info =
    if str_eq (provider_name info.provider) (provider_name bedrock)
      || str_eq (provider_name info.provider) (provider_name bedrock_mantle)
    then (lifted (resolve_bedrock_region (get (lit "X-Majordomo-Bedrock-Region") r.header) r.host)
        >>= endpoint_of info)
    else ok info

-- What is known of a request once its provider is.
pub record Incoming : Type 0 where
  pub body : Str
  pub custom_headers : List (Str × Str)
  pub path : Str
  pub info : ProviderInfo

-- The message for a path of no provider; `quote` is the verb %q of package fmt.
abbrev pub unrecognized : (Str → Str) → Str → Str → Refusal
unrecognized quote path host = refusal 400 (
    lit "unrecognized request path "
    ++ (quote path
        ++ (lit " (host "
            ++ (quote host
                ++ lit
                    "); supported paths: /v1/chat/completions, /v1/completions, /v1/embeddings, /v1/responses (OpenAI; /v1 prefix optional), /v1/messages (Anthropic), /<model>:generateContent (Gemini), /model/<modelId>/converse[-stream] (Bedrock). Alternatively, set X-Majordomo-Provider header."))))

unfoldable pub recognized : (Str → Str) → Request → Str → ProviderInfo → Result Refusal ProviderInfo
recognized quote r path info =
    if str_eq (provider_name info.provider) (provider_name unknown)
    then err (unrecognized quote path r.host)
    else with_endpoint r info

unfoldable pub read_request : (Str → Str) → Request → Result Refusal Incoming
unfolding recognized
read_request quote r = read_body r.body >>= λ body.
    lifted (extract_headers r.header []) >>= λ headers.
    let path = normalize_openai_path r.path in
    recognized quote r path (detect path (lookup (lit "x-majordomo-provider") headers)) >>= λ info.
    ok (record { body = body; custom_headers = headers; path = path; info = info })

-- extension.PolicyContext, without the identifier of the request.
pub record PolicyContext : Type 0 where
  pub api_key_id : ℕ
  pub user_id : Option ℕ
  pub org_id : Option ℕ
  pub provider : Str
  pub request_body : Str
  pub custom_headers : List (Str × Str)

-- A PolicyEnforcer, where one is set: a violation blocks the request.
abbrev pub Policy : Type 0
Policy = Option (PolicyContext → Option Refusal)

abbrev pub context_of : ApiKeyInfo → Incoming → PolicyContext
context_of key i = record {
  api_key_id = key.id;
  user_id = key.user_id;
  org_id = key.org_id;
  provider = provider_name i.info.provider;
  request_body = i.body;
  custom_headers = i.custom_headers;
}

abbrev pub unless_violation : Incoming → Option Refusal → Result Refusal Incoming
unless_violation i none = ok i
unless_violation i (some violation) = err violation

unfoldable pub enforce : Policy → ApiKeyInfo → Incoming → Result Refusal Incoming
enforce none key i = ok i
enforce (some policy) key i = unless_violation i (policy (context_of key i))

-- All stages before the proxy key.
unfoldable pub admit :
    (Str → Str)
    → Policy
    → Result AuthError (Option ApiKeyInfo)
    → Request
    → Result Refusal (ApiKeyInfo × Incoming)
unfolding enforce
admit quote policy auth r = authorized auth >>= λ key.
    read_request quote r >>= λ i. enforce policy key i >>= λ i'. ok (key, i')

abbrev pub proxy_key_of : ProxyError ⊎ Resolved → Result Refusal Resolved
proxy_key_of (inl e) = err (refusal 401 (lit "invalid or expired proxy key"))
proxy_key_of (inr resolved) = ok resolved

-- `if providerKey != "" { r.Header.Set("Authorization", "Bearer "+providerKey); proxyKeyID = pkID }`
abbrev pub with_provider_key : Resolved → Header → Header
with_provider_key ([], id) h = h
with_provider_key (c ∷ key, id) h = set (lit "Authorization") (lit "Bearer " ++ (c ∷ key)) h

abbrev pub used_proxy_key : Resolved → Option ℕ
used_proxy_key ([], id) = none
used_proxy_key (c ∷ key, id) = id
