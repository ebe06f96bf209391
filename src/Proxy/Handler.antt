-- ===== src/Proxy/Handler.antt =====
-- ServeHTTP and logAndFinish of internal/proxy/handler.go: the whole path of a request, as the calls it
-- makes, in order.
pub mod Plan
pub mod Runs
pub mod Exchange
pub mod Sent
pub mod Tests
use majordomo_steward.Prelude.{
  ℕ, Bool, true, false, not, ◌&&◌, ◌||◌, Option, none, some, List, [], ◌∷◌, Str, lit, str_eq, ltb,
  contains, length, trim_prefix, if◌then◌else◌, Result, ok, err, panic, out_of_fuel, ◌>>=◌, ◌⊎◌,
  inr,
}
use majordomo_steward.Provider.{Parser, get_parser, provider_name, is_translation_required}
use majordomo_steward.Provider.Translator.{Json, translate_anthropic_to_openai}
use majordomo_steward.Auth.Lru.{Lru}
use majordomo_steward.Auth.Resolver.{Answer, ApiKeyInfo, CachedKey, resolve_api_key, AuthError}
use majordomo_steward.Auth.ProxyResolver.{
  Answers, CachedProxyKey, Caches, ProxyError, Resolved, resolve_proxy_key,
}
use majordomo_steward.Proxy.Headers.{Header, copy_response_headers}
use majordomo_steward.Proxy.Compression.{should_compress}
use majordomo_steward.Proxy.Experiment.{Assignment, Cache}
use majordomo_steward.Proxy.Experiment.Override.{ObjectJson}
use majordomo_steward.Proxy.RequestLog.{Finished, ProviderKeyInfo, ResponseParser}
use majordomo_steward.Proxy.Request.{
  Request, Incoming, Refusal, refusal, Policy, get, extract_provider_key_info, admit, proxy_key_of,
  with_provider_key, used_proxy_key,
}
use majordomo_steward.Proxy.Handler.Plan.{
  BaseUrls, base_url_for, Redirect, check_deprecated, RouterWorld, find_assignment,
  apply_assignment, Outgoing, translate_request, Forwarded, forward,
}

-- What a provider answers: `body` is what could be read of it, and `complete` says that no error ended
-- the reading.
pub record UpstreamAnswer : Type 0 where
  pub status : ℕ
  pub header : Header
  pub body : Str
  pub complete : Bool
  pub response_time : ℕ

-- The calls of a handler: a request to a provider, a response to the client, and a call of logRequest.
-- The client takes the whole response.
pub data Event : Type 0 where
  forwarded : Forwarded → Event
  responded : ℕ → List (Str × Str) → Str → Event
  logged : Finished → Event

-- The handler's dependencies that are set once.
pub record Setup (F : Type 0) : Type 1 where
  pub api_keys : Lru CachedKey
  pub proxy_keys : Lru CachedProxyKey
  pub provider_keys : Lru Str
  pub hash_api_key : Str → Str
  pub decrypt : Str → Option Str
  pub key_ttl : ℕ
  pub proxy_ttl : ℕ
  pub has_proxy_resolver : Bool
  pub policy : Policy
  pub base_urls : BaseUrls
  pub deprecated_models : Option (List (Str × Str))
  pub parsers : Parser → ResponseParser
  pub objects : ObjectJson
  pub json : Json F
  pub gzip : Str → Option Str
  pub quote : Str → Str
  pub error_json : Str → Str
  pub parse_uuid : Str → Option ℕ

-- What a request meets outside: the times, the stores' answers and the provider's (none for an error).
pub record World : Type 0 where
  pub request_id : ℕ
  pub requested_at : ℕ
  pub responded_at : ℕ
  pub now : ℕ
  pub done : ℕ
  pub key_answer : Answer
  pub proxy_answers : Answers
  pub router : RouterWorld
  pub upstream : Forwarded → Option UpstreamAnswer

-- UpstreamResponse, as the client and the log get it.
pub record Response : Type 0 where
  pub status : ℕ
  pub header : Header
  pub body : Str
  pub response_time : ℕ

-- `w.Header().Set(name, value)`
abbrev pub without : Str → List (Str × Str) → List (Str × Str)
without name [] = []
without name ((j, v) ∷ h) = if str_eq j name then without name h else (j, v) ∷ without name h

abbrev pub set_pair : Str → Str → List (Str × Str) → List (Str × Str)
set_pair name value h = (name, value) ∷ without name h

module _ {F : Type 0} (setup : Setup F) where
  -- The caches that requests share.
  pub record State : Type 0 where
    pub keys : setup.api_keys.Cache
    pub proxies :
        Caches setup.proxy_keys setup.provider_keys setup.hash_api_key setup.decrypt setup.proxy_ttl
    pub experiments : Cache

  -- The events of a request, unless the handler panics, and the caches after it.
  pub record Served : Type 0 where
    pub events : Result (Unit {0}) (List Event)
    pub state : State

  -- WriteJSONError, with the response headers that are set already.
  abbrev pub refuse : List (Str × Str) → Refusal → Event
  refuse headers r =
      responded r.status (set_pair (lit "Content-Type") (lit "application/json") headers)
        (setup.error_json r.message)

  abbrev pub upstream_failed : Refusal
  upstream_failed = refusal 502 (lit "upstream request failed")

  -- The identifier of the session is none where the header is absent or no UUID.
  abbrev pub session_of : Str → Option ℕ
  session_of [] = none
  session_of (c ∷ sid) = setup.parse_uuid (c ∷ sid)

  abbrev pub has_session : Option ℕ → Bool
  has_session none = false
  has_session (some id) = true

  -- logAndFinish: the arguments of logRequest. `r` has the path that was sent, and `d` what is known of
  -- the model.
  unfoldable pub log_and_finish :
      World
      → Request
      → ApiKeyInfo
      → ProviderKeyInfo
      → Option ℕ
      → Incoming
      → Str
      → Redirect
      → Option Assignment
      → Response
      → Finished
  log_and_finish w r key provider_key proxy_key_id i path d a resp =
      let session = session_of (get (lit "X-Majordomo-Claudecode-Session-Id") r.header) in
      record {
        api_key = key;
        provider_key = provider_key;
        proxy_key_id = proxy_key_id;
        session_id = session;
        is_claude_code =
            str_eq (get (lit "X-Majordomo-Client") r.header) (lit "claude-code")
            || has_session session;
        provider = i.info.provider;
        exchange = record {
          request_id = w.request_id;
          requested_at = w.requested_at;
          method = r.method;
          path = path;
          custom_headers = i.custom_headers;
          req_body = i.body;
          status = resp.status;
          resp_headers = resp.header;
          resp_body = resp.body;
        };
        responded_at = w.responded_at;
        response_time = resp.response_time;
        assignment = a;
        redirected_from = d.redirected_from;
      }

  abbrev pub response_of : UpstreamAnswer → Response
  response_of a = record {
    status = a.status;
    header = a.header;
    body = a.body;
    response_time = a.response_time;
  }

  abbrev pub is_stream : Str → Bool
  is_stream content_type =
      contains content_type (lit "text/event-stream")
      || contains content_type (lit "vnd.amazon.eventstream")

  abbrev pub gzipped : Response → List (Str × Str) → Option Str → Event
  gzipped resp headers none = responded resp.status headers resp.body
  gzipped resp headers (some compressed) =
      responded resp.status
        (set_pair (lit "Vary") (lit "Accept-Encoding")
          (set_pair (lit "Content-Encoding") (lit "gzip") headers))
        compressed

  -- The response of a request that is not streamed, compressed where the client and the content allow.
  unfoldable pub write_response : Str → List (Str × Str) → Response → Event
  write_response accept_encoding warnings resp =
      let content_type = get (lit "Content-Type") resp.header in
      let headers = copy_response_headers resp.header warnings in
      if not (contains content_type (lit "text/event-stream"))
        && should_compress accept_encoding content_type (length resp.body)
      then gzipped resp headers (setup.gzip resp.body)
      else responded resp.status headers resp.body

  -- `if resp.StatusCode < 400 { … }`: an error of the translation leaves the body.
  abbrev pub body_or : Response → Option Str → Response
  body_or resp none = resp
  body_or resp (some body) = record resp { body = body }

  unfoldable pub translate_back : Response → Response
  translate_back resp =
      if ltb resp.status 400
      then body_or resp (translate_anthropic_to_openai setup.json resp.body)
      else resp

  -- What the client gets and what is logged, for each answer of the provider.
  unfoldable pub answered :
      Bool → Str → List (Str × Str) → (Response → Finished) → Option UpstreamAnswer → List Event
  unfolding translate_back
  answered streaming accept_encoding warnings finish none = refuse warnings upstream_failed ∷ []
  answered streaming accept_encoding warnings finish (some a) =
      let resp = response_of a in
      if streaming && is_stream (get (lit "Content-Type") a.header)
      then responded a.status (copy_response_headers a.header warnings) a.body
        ∷ logged (finish resp)
        ∷ []
      else if not a.complete
      then refuse warnings upstream_failed ∷ []
      else (let sent = if streaming then resp else translate_back resp in
          write_response accept_encoding warnings sent ∷ logged (finish sent) ∷ [])

  -- `useStreaming`
  abbrev pub uses_streaming : Incoming → Bool
  uses_streaming i = not (is_translation_required i.info.provider)

  -- The request after the proxy key and the translation.
  abbrev pub outgoing_of : Request → Incoming → Resolved → Str → Outgoing
  outgoing_of r i resolved body =
      translate_request setup.json i.info.provider i.body
        (record { body = body; path = i.path; header = with_provider_key resolved r.header })

  abbrev pub request_of : Request → Incoming → Outgoing → Forwarded
  request_of r i o = forward (uses_streaming i) (base_url_for setup.base_urls i.info) r o

  abbrev pub finish_with :
      World
      → Request
      → ApiKeyInfo
      → Incoming
      → Resolved
      → Redirect
      → Option Assignment
      → Outgoing
      → Response
      → Finished
  finish_with w r key i resolved d a o =
      log_and_finish w (record r { header = o.header }) key
        (extract_provider_key_info setup.hash_api_key r.header) (used_proxy_key resolved) i o.path d
        a

  -- The request to the provider and all that follows it.
  unfoldable pub send :
      World
      → Request
      → ApiKeyInfo
      → Incoming
      → Resolved
      → Redirect
      → Str × Option Assignment
      → List Event
  unfolding answered
  send w r key i resolved d (body, a) =
      let o = outgoing_of r i resolved body in
      let f = request_of r i o in
      forwarded f
      ∷ answered (uses_streaming i) (get (lit "Accept-Encoding") o.header) d.warnings
          (finish_with w r key i resolved d a o) (w.upstream f)

  -- The model of an experiment and the request, after the redirect of a deprecated model.
  unfoldable pub send_assigned :
      World
      → Request
      → ApiKeyInfo
      → Incoming
      → Resolved
      → Redirect
      → Result (Unit {0}) (Option Assignment)
      → Result (Unit {0}) (List Event)
  unfolding send
  send_assigned w r key i resolved d route = route >>= λ found.
      apply_assignment setup.objects i.body d found >>= λ applied.
      ok (send w r key i resolved d applied)

  unfoldable pub serve_redirected :
      World
      → Request
      → ApiKeyInfo
      → Incoming
      → Resolved
      → State
      → Result (Unit {0}) Redirect
      → Served
  unfolding send_assigned
  serve_redirected w r key i resolved s (ok d) =
      let (route, experiments') = find_assignment w.router key i key.org_id s.experiments in
      record {
        events = send_assigned w r key i resolved d route;
        state = record s { experiments = experiments' };
      }
  serve_redirected w r key i resolved s (err e) = record { events = err e; state = s }
  serve_redirected w r key i resolved s panic = record { events = panic; state = s }
  serve_redirected w r key i resolved s out_of_fuel = record { events = out_of_fuel; state = s }

  unfoldable pub serve_resolved :
      World → Request → ApiKeyInfo → Incoming → State → Result Refusal Resolved → Served
  unfolding serve_redirected
  serve_resolved w r key i s (ok resolved) = serve_redirected w r key i resolved s (
      check_deprecated setup.objects setup.deprecated_models
        (setup.parsers (get_parser i.info.provider)) key.deprecated_model_behavior i)
  serve_resolved w r key i s (err e) = record { events = ok (refuse [] e ∷ []); state = s }
  serve_resolved w r key i s panic = record { events = panic; state = s }
  serve_resolved w r key i s out_of_fuel = record { events = out_of_fuel; state = s }

  -- `strings.TrimPrefix(r.Header.Get("Authorization"), "Bearer ")`
  abbrev pub auth_key_of : Request → Str
  auth_key_of r = trim_prefix (get (lit "Authorization") r.header) (lit "Bearer ")

  -- The resolution of the proxy key, where a resolver is set, and the caches after it.
  unfoldable pub ask_proxy :
      World → Request → ApiKeyInfo → Incoming → State → (ProxyError ⊎ Resolved) × State
  ask_proxy w r key i s =
      let p =
        resolve_proxy_key setup.proxy_keys setup.provider_keys setup.hash_api_key setup.decrypt
          setup.proxy_ttl s.proxies (auth_key_of r) (provider_name i.info.provider) key.id w.now
          w.proxy_answers w.done in
      if setup.has_proxy_resolver
      then (p.result, record s { proxies = p.caches })
      else (inr ([], none), s)

  unfoldable pub serve_admitted :
      World → Request → State → Result Refusal (ApiKeyInfo × Incoming) → Served
  unfolding serve_resolved
  serve_admitted w r s (ok (key, i)) =
      let (answer, s') = ask_proxy w r key i s in serve_resolved w r key i s' (proxy_key_of answer)
  serve_admitted w r s (err e) = record { events = ok (refuse [] e ∷ []); state = s }
  serve_admitted w r s panic = record { events = panic; state = s }
  serve_admitted w r s out_of_fuel = record { events = out_of_fuel; state = s }

  unfoldable pub serve_http : World → State → Request → Served
  unfolding serve_admitted
  serve_http w s r =
      let auth =
        resolve_api_key setup.api_keys setup.hash_api_key setup.key_ttl s.keys
          (get (lit "X-Majordomo-Key") r.header) w.now w.key_answer w.done in
      serve_admitted w r (record s { keys = auth.cache })
        (admit setup.quote setup.policy auth.result r)
