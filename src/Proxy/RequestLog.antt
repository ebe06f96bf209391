-- ===== src/Proxy/RequestLog.antt =====
-- What the handler logs of an exchange: logRequest of internal/proxy/handler.go, with models.RequestLog.
-- The response parsers are those of an interface, provider.ResponseParser; the price table is that of
-- Pricing, over a type of floating-point numbers.
pub mod Privacy
pub mod Tests
use majordomo_steward.Prelude.{
  ℕ, ◌/◌, Bool, true, false, not, ◌&&◌, Option, none, some, List, [], ◌∷◌, Str, lit, str_eq, take,
  length, leb, ltb, if◌then◌else◌, Result, ok, panic, ◌>>=◌,
}
use majordomo_steward.Prelude.Int.{ℤ}
use majordomo_steward.Provider.{Provider, anthropic, bedrock, provider_name, get_parser, Parser}
use majordomo_steward.Provider.BedrockPath.{extract_bedrock_model_from_path}
use majordomo_steward.Provider.Metrics.{UsageMetrics, empty_metrics}
use majordomo_steward.Pricing.{Floats, Service, Cost, calculate}
use majordomo_steward.ClaudeCode.{RequestMetadata, Decoders, parse_request_response}
use majordomo_steward.Auth.Resolver.{ApiKeyInfo}
use majordomo_steward.Proxy.Experiment.{Assignment}
use majordomo_steward.Proxy.Headers.{Header, extract_custom_metadata}
use majordomo_steward.Proxy.Bodies.{
  LoggingConfig, StoredBodies, no_bodies, store_body_to_global_storage, Exchange, Upload,
  ConfigWorld, ConfigCaches, CloudStored, store_body_to_user_or_org_cloud,
}

-- provider.ResponseParser; ParseResponse gives none for an error.
pub record ResponseParser : Type 0 where
  pub parse_response : Str → Option UsageMetrics
  pub extract_model : Str → Str

-- models.ClaudeRequestMetadata: the session and what the parser found.
pub record ClaudeRequestMetadata : Type 0 where
  pub session_id : Option ℕ
  pub found : RequestMetadata

pub record ProviderKeyInfo : Type 0 where
  pub hash : Option Str
  pub alias : Option Str

-- The columns that logRequest fills.
pub record RequestLog (F : Type 0) : Type 0 where
  pub id : ℕ
  pub majordomo_api_key_id : ℕ
  pub user_id : Option ℕ
  pub org_id : Option ℕ
  pub proxy_key_id : Option ℕ
  pub provider_api_key_hash : Option Str
  pub provider_api_key_alias : Option Str
  pub provider : Str
  pub model : Str
  pub request_path : Str
  pub request_method : Str
  pub requested_at : ℕ
  pub responded_at : ℕ
  pub response_time_ms : ℕ
  pub input_tokens : ℤ
  pub output_tokens : ℤ
  pub cached_tokens : ℤ
  pub cache_creation_tokens : ℤ
  pub cost : Cost F
  pub status_code : ℕ
  pub error_message : Option Str
  pub raw_metadata : List (Str × Str)
  pub bodies : StoredBodies
  pub experiment_id : Option ℕ
  pub experiment_arm_id : Option ℕ
  pub original_model : Option Str
  pub deprecated_model_redirected : Bool
  pub claude_metadata : Option ClaudeRequestMetadata

-- The arguments of logRequest. `redirected_from` is deprecatedOriginalModel where
-- deprecatedModelRedirected holds. The response time is in nanoseconds.
pub record Finished : Type 0 where
  pub api_key : ApiKeyInfo
  pub provider_key : ProviderKeyInfo
  pub proxy_key_id : Option ℕ
  pub session_id : Option ℕ
  pub is_claude_code : Bool
  pub provider : Provider
  pub exchange : Exchange
  pub responded_at : ℕ
  pub response_time : ℕ
  pub assignment : Option Assignment
  pub redirected_from : Option Str

-- extension.EnrichmentEvent
pub record EnrichmentEvent : Type 0 where
  pub request_id : ℕ
  pub api_key_id : ℕ
  pub user_id : Option ℕ
  pub org_id : Option ℕ
  pub provider : Str
  pub request_body : Str
  pub response_body : Str
  pub custom_headers : List (Str × Str)
  pub status_code : ℕ

-- The calls that logRequest makes, and the caches after it.
pub record Logged (F : Type 0) : Type 0 where
  pub row : RequestLog F
  pub uploaded : Option Upload
  pub enriched : Option EnrichmentEvent
  pub caches : ConfigCaches

-- `if metrics.Model == "" { metrics.Model = model }`
abbrev pub with_model : Str → UsageMetrics → UsageMetrics
with_model model m = if str_eq m.model [] then record m { model = model } else m

abbrev pub is_bedrock : Provider → Bool
is_bedrock p = str_eq (provider_name p) (provider_name bedrock)

abbrev pub is_anthropic : Provider → Bool
is_anthropic p = str_eq (provider_name p) (provider_name anthropic)

abbrev pub parsed_or : ResponseParser → Provider → Str → Option UsageMetrics → UsageMetrics
parsed_or parser p req_body none = empty_metrics p (parser.extract_model req_body)
parsed_or parser p req_body (some m) = m

-- The metrics of the response, whose model falls back to that of the request.
unfoldable pub metrics_for : ResponseParser → Provider → Exchange → UsageMetrics
metrics_for parser p x =
    let m = parsed_or parser p x.req_body (parser.parse_response x.resp_body) in
    let m' = with_model (parser.extract_model x.req_body) m in
    if is_bedrock p then with_model (extract_bedrock_model_from_path x.path) m' else m'

unfoldable pub error_message_of : ℕ → Str → Option Str
error_message_of status body =
    if leb 400 status then some (if ltb 500 (length body) then take 500 body else body) else none

-- OriginalModel: an assignment takes precedence over the redirect of a deprecated model.
unfoldable pub original_model_of : Option Assignment → Option Str → Str → Option Str
original_model_of none none requested = none
original_model_of none (some model) requested = some model
original_model_of (some a) redirected_from requested = some requested

abbrev pub is_redirected : Option Str → Bool
is_redirected none = false
is_redirected (some model) = true

abbrev pub experiment_of : Option Assignment → Option ℕ
experiment_of none = none
experiment_of (some a) = some a.experiment_id

abbrev pub arm_of : Option Assignment → Option ℕ
arm_of none = none
arm_of (some a) = some a.arm_id

-- `if !uploaded && !isClaudeCode { h.storeBodyToGlobalStorage(…) }`
unfoldable pub stored_after :
    LoggingConfig → Bool → Exchange → CloudStored → Result (Unit {0}) StoredBodies
stored_after l is_claude_code x c = elim c.uploaded [
  | some up ↦ ok c.bodies
  | none ↦
      if is_claude_code
      then ok c.bodies
      else store_body_to_global_storage l x.req_body x.resp_body c.bodies
]

abbrev pub attached : Option ℕ → Option RequestMetadata → Option ClaudeRequestMetadata
attached session_id none = none
attached session_id (some meta) = some (record { session_id = session_id; found = meta })

-- The conditions for Claude Code metadata; `has_sessions` says that the session manager is set.
unfoldable pub claude_metadata_for : Decoders → Bool → Finished → Option ClaudeRequestMetadata
claude_metadata_for d has_sessions f =
    let x = f.exchange in
    if f.is_claude_code
      && is_anthropic f.provider
      && str_eq x.path (lit "/v1/messages")
      && ltb x.status 400
      && has_sessions
    then attached f.session_id (parse_request_response d x.req_body x.resp_body)
    else none

abbrev pub enrichment_of : Finished → EnrichmentEvent
enrichment_of f = record {
  request_id = f.exchange.request_id;
  api_key_id = f.api_key.id;
  user_id = f.api_key.user_id;
  org_id = f.api_key.org_id;
  provider = provider_name f.provider;
  request_body = f.exchange.req_body;
  response_body = f.exchange.resp_body;
  custom_headers = f.exchange.custom_headers;
  status_code = f.exchange.status;
}

-- What the handler is configured with, as far as logRequest reads it.
pub record LogSetup (F : Type 0) : Type 0 where
  pub logging : LoggingConfig
  pub parsers : Parser → ResponseParser
  pub floats : Floats F
  pub pricing : Service F
  pub decoders : Decoders
  pub has_sessions : Bool
  pub has_enricher : Bool
  pub uuid_text : ℕ → Str
  pub date_text : ℕ → Str

module _ {F : Type 0} (setup : LogSetup F) where
  -- The row without the bodies and the Claude Code metadata.
  unfoldable pub row_of : Finished → RequestLog F
  unfolding metrics_for error_message_of original_model_of
  row_of f =
      let x = f.exchange in
      let parser = setup.parsers (get_parser f.provider) in
      let m = metrics_for parser f.provider x in
      record {
        id = x.request_id;
        majordomo_api_key_id = f.api_key.id;
        user_id = f.api_key.user_id;
        org_id = f.api_key.org_id;
        proxy_key_id = f.proxy_key_id;
        provider_api_key_hash = f.provider_key.hash;
        provider_api_key_alias = f.provider_key.alias;
        provider = provider_name m.provider;
        model = m.model;
        request_path = x.path;
        request_method = x.method;
        requested_at = x.requested_at;
        responded_at = f.responded_at;
        response_time_ms = f.response_time / 1000000;
        input_tokens = m.input_tokens;
        output_tokens = m.output_tokens;
        cached_tokens = m.cached_tokens;
        cache_creation_tokens = m.cache_creation_tokens;
        cost = calculate setup.floats m setup.pricing;
        status_code = x.status;
        error_message = error_message_of x.status x.resp_body;
        raw_metadata = extract_custom_metadata x.custom_headers [];
        bodies = no_bodies;
        experiment_id = experiment_of f.assignment;
        experiment_arm_id = arm_of f.assignment;
        original_model =
            original_model_of f.assignment f.redirected_from (parser.extract_model x.req_body);
        deprecated_model_redirected = is_redirected f.redirected_from;
        claude_metadata = none;
      }

  -- The body is stored in the cloud of the user or the organisation, else in the row itself.
  unfoldable pub log_request : ConfigWorld → ConfigCaches → Finished → Result (Unit {0}) (Logged F)
  log_request w c f =
      let stored =
        store_body_to_user_or_org_cloud setup.uuid_text setup.date_text w f.api_key.id
          f.api_key.user_id f.api_key.org_id f.exchange no_bodies c in
      stored_after setup.logging f.is_claude_code f.exchange stored >>= λ bodies. ok (record {
        row = record (row_of f) {
          bodies = bodies;
          claude_metadata = claude_metadata_for setup.decoders setup.has_sessions f;
        };
        uploaded = stored.uploaded;
        enriched = if setup.has_enricher then some (enrichment_of f) else none;
        caches = stored.caches;
      })
