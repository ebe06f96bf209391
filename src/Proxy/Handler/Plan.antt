-- ===== src/Proxy/Handler/Plan.antt =====
-- What ServeHTTP of internal/proxy/handler.go sends upstream: the redirect of a deprecated model, the
-- model of an experiment, the translation, and the request that Forward and ForwardStream of
-- internal/proxy/upstream.go make of it.
use majordomo_steward.Prelude.{
  ℕ, Bool, ◌||◌, Option, none, some, List, [], ◌∷◌, ◌++◌, Str, lit, str_eq, trim_prefix,
  if◌then◌else◌, Result, ok, err, panic, out_of_fuel,
}
use majordomo_steward.Prelude.Int.{ℤ}
use majordomo_steward.Provider.{
  Provider, openai, anthropic, gemini, fireworks, together, ProviderInfo, is_translation_required,
}
use majordomo_steward.Provider.BedrockPath.{extract_bedrock_model_from_path}
use majordomo_steward.Provider.Translator.{Json, translate_openai_to_anthropic}
use majordomo_steward.Deprecated.{replacement_of}
use majordomo_steward.Auth.Resolver.{ApiKeyInfo}
use majordomo_steward.Proxy.Headers.{Header, copy_headers, extract_custom_metadata}
use majordomo_steward.Proxy.Experiment.{
  Assignment, Experiment, Cache, get_experiments, route_experiments,
}
use majordomo_steward.Proxy.Experiment.Override.{ObjectJson, override_model}
use majordomo_steward.Proxy.RequestLog.{ResponseParser, is_bedrock}
use majordomo_steward.Proxy.Request.{Request, Incoming, get, set, del}

-- The base URLs of the configuration, "" where one is not set; the other providers have none.
pub record BaseUrls : Type 0 where
  pub openai_url : Str
  pub anthropic_url : Str
  pub gemini_url : Str
  pub fireworks_url : Str
  pub together_url : Str

-- `h.providers[p]`
abbrev pub configured_url : BaseUrls → Provider → Str
configured_url urls openai = urls.openai_url
configured_url urls anthropic = urls.anthropic_url
configured_url urls gemini = urls.gemini_url
configured_url urls fireworks = urls.fireworks_url
configured_url urls together = urls.together_url
configured_url urls _ = []

abbrev pub unless_empty : Str → Str → Str
unless_empty [] s = s
unless_empty (c ∷ url) s = c ∷ url

abbrev pub base_url_for : BaseUrls → ProviderInfo → Str
base_url_for urls info = unless_empty (configured_url urls info.provider) info.base_url

-- upstreamBody, deprecatedOriginalModel where the model is redirected, and the response headers that
-- are set already.
pub record Redirect : Type 0 where
  pub upstream_body : Str
  pub redirected_from : Option Str
  pub warnings : List (Str × Str)

abbrev pub no_redirect : Str → Redirect
no_redirect body = record { upstream_body = body; redirected_from = none; warnings = [] }

abbrev pub warnings_for : Str → Str → Str → List (Str × Str)
warnings_for behavior model replacement =
    if str_eq behavior (lit "warn")
    then (lit "X-Majordomo-Deprecated-Model", model)
      ∷ (lit "X-Majordomo-Deprecated-Replacement", replacement)
      ∷ []
    else []

-- What follows OverrideModel: an error leaves the body as it is, a panic goes on.
abbrev pub redirected : Str → Str → Str → Str → Result (Unit {0}) Str → Result (Unit {0}) Redirect
redirected behavior body model replacement (ok overridden) = ok (record {
  upstream_body = overridden;
  redirected_from = some model;
  warnings = warnings_for behavior model replacement;
})
redirected behavior body model replacement (err e) = ok (no_redirect body)
redirected behavior body model replacement panic = panic
redirected behavior body model replacement out_of_fuel = out_of_fuel

abbrev pub redirect_to : ObjectJson → Str → Str → Str → Option Str → Result (Unit {0}) Redirect
redirect_to json behavior body model none = ok (no_redirect body)
redirect_to json behavior body model (some replacement) =
    if str_eq behavior (lit "redirect") || str_eq behavior (lit "warn")
    then redirected behavior body model replacement (override_model json body replacement)
    else ok (no_redirect body)

abbrev pub requested_model : ResponseParser → Incoming → Str
requested_model parser i =
    if is_bedrock i.info.provider
    then extract_bedrock_model_from_path i.path
    else parser.extract_model i.body

-- `models` is none where the service of deprecated models is nil.
unfoldable pub check_deprecated :
    ObjectJson
    → Option (List (Str × Str))
    → ResponseParser
    → Str
    → Incoming
    → Result (Unit {0}) Redirect
check_deprecated json none parser behavior i = ok (no_redirect i.body)
check_deprecated json (some models) parser behavior i =
    let model = requested_model parser i in
    redirect_to json behavior i.body model (replacement_of models model)

-- What the router is asked with: whether it is set, its time-to-live, the times before and after the
-- store's answer, the answer, and rand.Intn.
pub record RouterWorld : Type 0 where
  pub has_router : Bool
  pub cache_ttl : ℕ
  pub now : ℕ
  pub done : ℕ
  pub answer : Option (List Experiment)
  pub rand_intn : ℤ → ℤ

abbrev pub routed :
    RouterWorld
    → ApiKeyInfo
    → Incoming
    → List Experiment × Cache
    → Result (Unit {0}) (Option Assignment) × Cache
routed w key i (exps, cache) = (
  route_experiments w.rand_intn (some key.id) (extract_custom_metadata i.custom_headers []) [] exps,
  cache,
)

-- `if h.experimentRouter != nil && apiKeyInfo.OrgID != nil`
unfoldable pub find_assignment :
    RouterWorld
    → ApiKeyInfo
    → Incoming
    → Option ℕ
    → Cache
    → Result (Unit {0}) (Option Assignment) × Cache
find_assignment w key i none cache = (ok none, cache)
find_assignment w key i (some org) cache =
    if w.has_router
    then routed w key i (get_experiments w.cache_ttl cache org w.now w.answer w.done)
    else (ok none, cache)

-- The body with the model of an experiment, and the assignment that the log will name.
abbrev pub assigned :
    Redirect → Assignment → Result (Unit {0}) Str → Result (Unit {0}) (Str × Option Assignment)
assigned d a (ok overridden) = ok (overridden, some a)
assigned d a (err e) = ok (d.upstream_body, none)
assigned d a panic = panic
assigned d a out_of_fuel = out_of_fuel

unfoldable pub apply_assignment :
    ObjectJson → Str → Redirect → Option Assignment → Result (Unit {0}) (Str × Option Assignment)
apply_assignment json body d none = ok (d.upstream_body, none)
apply_assignment json body d (some a) = assigned d a (override_model json body a.assigned_model)

-- The request that goes upstream, before its headers are filtered.
pub record Outgoing : Type 0 where
  pub body : Str
  pub path : Str
  pub header : Header

-- `Authorization: Bearer <key>` becomes `X-Api-Key: <key>`.
abbrev pub anthropic_header : Str → Header → Header
anthropic_header [] h = h
anthropic_header (c ∷ auth) h =
    set (lit "Anthropic-Version") (lit "2023-06-01")
      (del (lit "Authorization") (set (lit "X-Api-Key") (trim_prefix (c ∷ auth) (lit "Bearer ")) h))

abbrev pub translated_or : Outgoing → Option (Str × Str) → Outgoing
translated_or o none = o
translated_or o (some (body, path)) = record o { body = body; path = path }

-- The translation starts from the body of the client.
unfoldable pub translate_request : {F : Type 0} → Json F → Provider → Str → Outgoing → Outgoing
translate_request json p body o =
    if is_translation_required p
    then (let o' = translated_or o (translate_openai_to_anthropic json body) in
        record o' { header = anthropic_header (get (lit "Authorization") o.header) o.header })
    else o

-- A request to a provider: whether it is sent by the streaming client, and what is sent.
pub record Forwarded : Type 0 where
  pub streaming : Bool
  pub method : Str
  pub target_url : Str
  pub header : List (Str × Str)
  pub body : Str

abbrev pub with_query : Str → Str → Str
with_query url [] = url
with_query url (c ∷ query) = url ++ (lit "?" ++ (c ∷ query))

-- The request of Forward and of ForwardStream.
unfoldable pub forward : Bool → Str → Request → Outgoing → Forwarded
forward streaming base_url r o = record {
  streaming = streaming;
  method = r.method;
  target_url = with_query (base_url ++ o.path) r.query;
  header = copy_headers o.header [];
  body = o.body;
}
