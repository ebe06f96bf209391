-- ===== src/Proxy/Handler/Tests.antt =====
-- Runs of the model of ServeHTTP, and the theorems at them.
use majordomo_steward.Prelude.{
  true, false, none, some, [], ◌∷◌, Str, lit, ◌≡◌, refl, inr, ok, str_eq, if◌then◌else◌,
}
use majordomo_steward.Prelude.Int.{pos, ◌+ℤ◌, ◌-ℤ◌}
use majordomo_steward.Provider.{
  resolve_explicit_provider, openai, anthropic_openai, detect, normalize_openai_path,
  detect_from_path, get_parser, is_translation_required,
}
use majordomo_steward.Provider.Translator.{
  Json, translate_openai_to_anthropic, to_anthropic, convert_messages,
  translate_anthropic_to_openai,
}
use majordomo_steward.Auth.Lru.{unbounded}
use majordomo_steward.Auth.Resolver.{
  ApiKey, info_of, resolve_api_key, resolve_found, get_from_cache, resolve_from_storage,
}
use majordomo_steward.Auth.ProxyResolver.{
  resolve_proxy_key, look_up, check_proxy_key, decrypt_mapping,
}
use majordomo_steward.Proxy.Experiment.{
  Experiment, Assignment, draw, get_experiments, is_skipped, matches_filters, route_experiments,
  select_arm, total_weight, walk_arms,
}
use majordomo_steward.Proxy.Experiment.Override.{ObjectJson, override_model}
use majordomo_steward.Proxy.Headers.{Header, extract_headers, copy_unless, extract_custom_metadata}
use majordomo_steward.Proxy.RequestLog.{ResponseParser, Finished}
use majordomo_steward.Proxy.Request.{
  Incoming, Request, admit, read_request, with_endpoint, enforce, extract_provider_key_info,
  recognized,
}
use majordomo_steward.Proxy.Handler.Plan.{
  Forwarded, check_deprecated, find_assignment, apply_assignment, forward, translate_request,
}
use majordomo_steward.Proxy.Handler.{
  Setup, World, State, Event, forwarded, responded, logged, UpstreamAnswer, serve_http,
  translate_back, ask_proxy, answered, log_and_finish, send, send_assigned, serve_admitted,
  serve_redirected, serve_resolved, write_response,
}
use majordomo_steward.Proxy.Compression.{
  accepts_gzip, is_compressible_content_type, should_compress, split,
}
use majordomo_steward.Proxy.Handler.Exchange.{IsExchange, serve_http-IsExchange}
use majordomo_steward.Proxy.Handler.Runs.{key_result, proxy_result}
use majordomo_steward.Proxy.Handler.Sent.{
  HasKey, forwarded-NoMajordomo, assignment-Sent, proxy_key-Replaced, translation-Sent,
}
use majordomo_steward.Proxy.Headers.Forwarded.{values_of}

-- A JSON library for the runs: the text of a body is the name of its model, and "null" is null.
abbrev toy_objects : ObjectJson
toy_objects = record {
  decode_object = λ body.
      if str_eq body (lit "null") then some none else some (some ((lit "model", body) ∷ []));
  encode_text = λ s. s;
  encode_object = λ m. elim m [ [] ↦ none | (k, v) ∷ rest ↦ some v ];
}

abbrev toy_json : Json Unit
toy_json = record {
  decode_request = λ body. some (record {
    model = body;
    messages = [];
    max_tokens = none;
    temperature = none;
    top_p = none;
    stream = none;
  });
  encode_request = λ req. some req.model;
  decode_response = λ body. none;
  encode_response = λ resp. none;
}

abbrev toy_parser : ResponseParser
toy_parser = record { parse_response = λ body. none; extract_model = λ body. body }

abbrev same_text : Str → Str
same_text s = s

abbrev setup : Setup Unit
setup = record {
  api_keys = unbounded _;
  proxy_keys = unbounded _;
  provider_keys = unbounded _;
  hash_api_key = same_text;
  decrypt = λ s. some s;
  key_ttl = 300;
  proxy_ttl = 300;
  has_proxy_resolver = true;
  policy = none;
  base_urls = record {
    openai_url = lit "https://api.openai.com";
    anthropic_url = [];
    gemini_url = [];
    fireworks_url = [];
    together_url = [];
  };
  deprecated_models = none;
  parsers = λ p. toy_parser;
  objects = toy_objects;
  json = toy_json;
  gzip = λ s. none;
  quote = same_text;
  error_json = same_text;
  parse_uuid = λ s. none;
}

abbrev fresh : State setup
fresh = record {
  keys = setup.api_keys.empty;
  proxies = record { key_cache = setup.proxy_keys.empty; prov_cache = setup.provider_keys.empty };
  experiments = λ org. none;
}

abbrev dev_key : ApiKey
dev_key = record {
  id = 3;
  name = lit "dev";
  user_id = none;
  org_id = some 1;
  is_active = true;
  revoked_at = none;
  deprecated_model_behavior = lit "passthrough";
}

abbrev trial : Experiment
trial = record {
  id = 7;
  status = lit "active";
  api_key_id = none;
  metadata_filters = [];
  sticky_key = none;
  starts_at = 0;
  ends_at = 100;
  arms = record { id = 8; model = lit "gpt-4o-mini"; weight = pos 1 } ∷ [];
}

abbrev answer : UpstreamAnswer
answer = record {
  status = 200;
  header = (lit "Content-Type", lit "application/json" ∷ []) ∷ [];
  body = lit "hello";
  complete = true;
  response_time = 5;
}

abbrev world : World
world = record {
  request_id = 11;
  requested_at = 20;
  responded_at = 30;
  now = 20;
  done = 21;
  key_answer = some (some dev_key);
  proxy_answers = record {
    proxy_key =
        some
          (some (record { id = 5; majordomo_api_key_id = 3; is_active = true; revoked_at = none }));
    mapping = some (some (lit "sk-live"));
  };
  router = record {
    has_router = true;
    cache_ttl = 60;
    now = 20;
    done = 21;
    answer = some (trial ∷ []);
    rand_intn = λ n. pos 0;
  };
  upstream = λ f. some answer;
}

abbrev headers : Header
headers =
    (lit "X-Majordomo-Key", lit "mdm_sk_dev" ∷ [])
    ∷ (lit "Authorization", lit "Bearer mdm_pk_1" ∷ [])
    ∷ []

abbrev request : Request
request = record {
  method = lit "POST";
  path = lit "/chat/completions";
  query = [];
  host = lit "steward";
  header = headers;
  body = some (lit "gpt-4o");
}

abbrev first : Forwarded
first = record {
  streaming = true;
  method = lit "POST";
  target_url = lit "https://api.openai.com/v1/chat/completions";
  header = (lit "Authorization", lit "Bearer sk-live") ∷ [];
  body = lit "gpt-4o-mini";
}

abbrev second : Event
second = responded 200 ((lit "Content-Type", lit "application/json") ∷ []) (lit "hello")

abbrev arm : Assignment
arm = record {
  experiment_id = 7;
  arm_id = 8;
  assigned_model = lit "gpt-4o-mini";
  original_model = [];
}

abbrev finished : Finished
finished = record {
  api_key = info_of (lit "mdm_sk_dev") dev_key;
  provider_key = record { hash = some (lit "Bearer mdm_pk_1"); alias = none };
  proxy_key_id = some 5;
  session_id = none;
  is_claude_code = false;
  provider = openai;
  exchange = record {
    request_id = 11;
    requested_at = 20;
    method = lit "POST";
    path = lit "/v1/chat/completions";
    custom_headers = (lit "x-majordomo-key", lit "mdm_sk_dev") ∷ [];
    req_body = lit "gpt-4o";
    status = 200;
    resp_headers = answer.header;
    resp_body = lit "hello";
  };
  responded_at = 30;
  response_time = 5;
  assignment = some arm;
  redirected_from = none;
}

run :
    (serve_http setup world fresh request).events
    ≡ ok (forwarded first ∷ second ∷ logged finished ∷ [])
unfolding serve_http admit resolve_api_key resolve_found get_from_cache resolve_from_storage
    read_request extract_headers detect normalize_openai_path with_endpoint ask_proxy
    resolve_proxy_key look_up check_proxy_key decrypt_mapping check_deprecated find_assignment ◌+ℤ◌
    ◌-ℤ◌ detect_from_path get_parser is_translation_required accepts_gzip
    is_compressible_content_type should_compress split override_model draw get_experiments
    is_skipped matches_filters route_experiments select_arm total_weight walk_arms apply_assignment
    forward translate_request answered log_and_finish send send_assigned serve_admitted
    serve_redirected serve_resolved write_response copy_unless extract_custom_metadata enforce
    extract_provider_key_info recognized
run = refl

serve_http-IsExchange_example :
    IsExchange setup world fresh request (forwarded first ∷ second ∷ logged finished ∷ [])
serve_http-IsExchange_example = serve_http-IsExchange setup world fresh request _ run

forwarded-NoMajordomo_example : values_of (lit "X-MAJORDOMO-Key") first.header ≡ []
forwarded-NoMajordomo_example =
    forwarded-NoMajordomo setup world fresh request first (second ∷ logged finished ∷ [])
      (lit "X-MAJORDOMO-Key") run refl

assignment-Sent_example :
    override_model toy_objects (lit "gpt-4o") (lit "gpt-4o-mini") ≡ ok (lit "gpt-4o-mini")
unfolding is_translation_required
assignment-Sent_example =
    assignment-Sent setup world fresh request first second finished arm run refl refl

abbrev incoming : Incoming
incoming = record {
  body = lit "gpt-4o";
  custom_headers = (lit "x-majordomo-key", lit "mdm_sk_dev") ∷ [];
  path = lit "/v1/chat/completions";
  info = record { provider = openai; base_url = lit "https://api.openai.com" };
}

run_key : key_result setup world fresh request ≡ ok (some (info_of (lit "mdm_sk_dev") dev_key))
unfolding resolve_api_key resolve_found get_from_cache resolve_from_storage
run_key = refl

run_read : read_request same_text request ≡ ok incoming
unfolding read_request extract_headers detect normalize_openai_path with_endpoint detect_from_path
    recognized
run_read = refl

run_proxy :
    proxy_result setup world fresh request (info_of (lit "mdm_sk_dev") dev_key) incoming
    ≡ inr (lit "sk-live", some 5)
unfolding ask_proxy resolve_proxy_key look_up check_proxy_key decrypt_mapping
run_proxy = refl

proxy_key-Replaced_example : HasKey (is_translation_required openai) (lit "sk-live") first
proxy_key-Replaced_example =
    proxy_key-Replaced setup world fresh request first (second ∷ logged finished ∷ [])
      (info_of (lit "mdm_sk_dev") dev_key) incoming b's' (lit "k-live") (some 5) run run_key
      run_read run_proxy

-- The same request to the translating provider: the body has not the model of the experiment.
abbrev translated_request : Request
translated_request = record request {
  header = (lit "X-Majordomo-Provider", lit "anthropic-openai" ∷ []) ∷ headers;
}

abbrev translated_first : Forwarded
translated_first = record {
  streaming = false;
  method = lit "POST";
  target_url = lit "https://api.anthropic.com/v1/messages";
  header = (lit "Anthropic-Version", lit "2023-06-01") ∷ (lit "X-Api-Key", lit "sk-live") ∷ [];
  body = lit "gpt-4o";
}

abbrev translated_incoming : Incoming
translated_incoming = record {
  body = lit "gpt-4o";
  custom_headers =
      (lit "x-majordomo-key", lit "mdm_sk_dev")
      ∷ (lit "x-majordomo-provider", lit "anthropic-openai")
      ∷ [];
  path = lit "/v1/chat/completions";
  info = record { provider = anthropic_openai; base_url = lit "https://api.anthropic.com" };
}

abbrev translated_finished : Finished
translated_finished = record finished {
  provider = anthropic_openai;
  exchange = record (finished.exchange) {
    path = lit "/v1/messages";
    custom_headers = translated_incoming.custom_headers;
  };
}

run_translated :
    (serve_http setup world fresh translated_request).events
    ≡ ok (forwarded translated_first ∷ second ∷ logged translated_finished ∷ [])
unfolding serve_http admit resolve_api_key resolve_found get_from_cache resolve_from_storage
    read_request extract_headers detect normalize_openai_path with_endpoint ask_proxy
    resolve_proxy_key look_up check_proxy_key decrypt_mapping check_deprecated find_assignment ◌+ℤ◌
    ◌-ℤ◌ detect_from_path get_parser is_translation_required accepts_gzip
    is_compressible_content_type should_compress split override_model draw get_experiments
    is_skipped matches_filters route_experiments select_arm total_weight walk_arms apply_assignment
    forward translate_request answered log_and_finish send send_assigned serve_admitted
    serve_redirected serve_resolved write_response copy_unless extract_custom_metadata enforce
    extract_provider_key_info recognized resolve_explicit_provider translate_openai_to_anthropic
    to_anthropic convert_messages translate_back translate_anthropic_to_openai
run_translated = refl

translated_read : read_request same_text translated_request ≡ ok translated_incoming
unfolding read_request extract_headers detect normalize_openai_path with_endpoint
    resolve_explicit_provider recognized
translated_read = refl

translated_body :
    translate_openai_to_anthropic toy_json (lit "gpt-4o") ≡ some (lit "gpt-4o", lit "/v1/messages")
unfolding translate_openai_to_anthropic to_anthropic convert_messages
translated_body = refl

needs_translation : is_translation_required anthropic_openai ≡ true
unfolding is_translation_required
needs_translation = refl

translation-Sent_example : translated_first.body ≡ lit "gpt-4o"
translation-Sent_example =
    translation-Sent setup world fresh translated_request translated_first
      (second ∷ logged translated_finished ∷ []) translated_incoming (lit "gpt-4o")
      (lit "/v1/messages") run_translated translated_read needs_translation translated_body
