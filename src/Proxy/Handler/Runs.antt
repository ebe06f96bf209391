-- ===== src/Proxy/Handler/Runs.antt =====
-- The two kinds of runs of ServeHTTP: a request that is refused, and one that is sent.
use majordomo_steward.Prelude.{
  Option, none, some, List, [], ◌∷◌, Str, lit, ◌≡◌, refl, ap, subst, ◌∙◌, ◌⊎◌, inl, inr, Result, ok,
  err, panic, out_of_fuel, bind_ok,
}
use majordomo_steward.Provider.{get_parser}
use majordomo_steward.Auth.Resolver.{ApiKeyInfo, AuthError, resolve_api_key}
use majordomo_steward.Auth.ProxyResolver.{ProxyError, Resolved}
use majordomo_steward.Proxy.Experiment.{Assignment}
use majordomo_steward.Proxy.Request.{
  Request, Incoming, Refusal, refusal, Policy, get, authorized, read_request, enforce,
  unless_violation, admit, proxy_key_of,
}
use majordomo_steward.Proxy.Handler.Plan.{
  Redirect, check_deprecated, find_assignment, apply_assignment,
}
use majordomo_steward.Proxy.Handler.{
  Setup, World, State, Event, refuse, send, send_assigned, serve_redirected, serve_resolved,
  serve_admitted, serve_http, ask_proxy,
}

module _ {F : Type 0} (setup : Setup F) (w : World) (s : State setup) (r : Request) where
  -- What the resolver of API keys answers in the run.
  abbrev pub key_result : Result AuthError (Option ApiKeyInfo)
  key_result =
      (resolve_api_key setup.api_keys setup.hash_api_key setup.key_ttl s.keys
        (get (lit "X-Majordomo-Key") r.header) w.now w.key_answer w.done).result

  -- The caches after the resolution of the API key.
  abbrev pub with_key_cache : State setup
  with_key_cache = record s {
    keys =
        (resolve_api_key setup.api_keys setup.hash_api_key setup.key_ttl s.keys
          (get (lit "X-Majordomo-Key") r.header) w.now w.key_answer w.done).cache;
  }

  -- What the resolver of proxy keys answers in the run, where it is set.
  abbrev pub proxy_result : ApiKeyInfo → Incoming → ProxyError ⊎ Resolved
  proxy_result key i = (ask_proxy setup w r key i with_key_cache).0

  -- What the stages of a run give in which the request is sent.
  pub record Run (events : List Event) : Type 0 where
    pub key : ApiKeyInfo
    pub incoming : Incoming
    pub resolved : Resolved
    pub redirect : Redirect
    pub found : Option Assignment
    pub applied : Str × Option Assignment
    pub is_authorized : key_result ≡ ok (some key)
    pub is_read : read_request setup.quote r ≡ ok incoming
    pub is_allowed : enforce setup.policy key incoming ≡ ok incoming
    pub is_resolved : proxy_result key incoming ≡ inr resolved
    pub is_redirected :
        check_deprecated setup.objects setup.deprecated_models
          (setup.parsers (get_parser incoming.info.provider))
          key.deprecated_model_behavior
          incoming
        ≡ ok redirect
    pub is_applied : apply_assignment setup.objects incoming.body redirect found ≡ ok applied
    pub is_sent : events ≡ send setup w r key incoming resolved redirect applied

  -- A refusal, or a run that sends the request.
  abbrev pub Runs : List Event → Type 0
  Runs events = ((e : Refusal) × (events ≡ refuse setup [] e ∷ [])) ⊎ Run events

  authorized_ok :
      (m : Result AuthError (Option ApiKeyInfo)) (key : ApiKeyInfo)
      → authorized m ≡ ok key
      → m ≡ ok (some key)
  authorized_ok (ok none) key h = absurd (cc)
  authorized_ok (ok (some k)) key h = cc
  authorized_ok (err e) key h = absurd (cc)
  authorized_ok panic key h = absurd (cc)
  authorized_ok out_of_fuel key h = absurd (cc)

  enforce_ok :
      (policy : Policy) (key : ApiKeyInfo) (i j : Incoming) → enforce policy key i ≡ ok j → i ≡ j
  unfolding enforce
  enforce_ok none key i j h = cc
  enforce_ok (some policy) key i j h = on_violation (policy _) h
    where
      on_violation : (v : Option Refusal) → unless_violation i v ≡ ok j → i ≡ j
      on_violation none h = cc
      on_violation (some v) h = absurd (cc)

  abbrev Admission : ApiKeyInfo × Incoming → Type 0
  Admission (key, i) =
      (key_result ≡ ok (some key))
      × (read_request setup.quote r ≡ ok i)
      × (enforce setup.policy key i ≡ ok i)

  admit_ok :
      (p : ApiKeyInfo × Incoming) → admit setup.quote setup.policy key_result r ≡ ok p → Admission p
  unfolding admit
  admit_ok p h =
      let (key, a, h1) = bind_ok (authorized key_result) _ p h in
      let (i, b, h2) = bind_ok (read_request setup.quote r) _ p h1 in
      let (j, c, h3) = bind_ok (enforce setup.policy key i) _ p h2 in
      let same : i ≡ j = enforce_ok setup.policy key i j c in
      let whole : (key, j) ≡ p = cc in
      subst Admission whole (
        authorized_ok key_result key a,
        b ∙ ap ok same,
        subst (λ k. enforce setup.policy key k ≡ ok j) same c,
      )

  proxy_key_of_ok :
      (p : ProxyError ⊎ Resolved) (resolved : Resolved)
      → proxy_key_of p ≡ ok resolved
      → p ≡ inr resolved
  proxy_key_of_ok (inl e) resolved h = absurd (cc)
  proxy_key_of_ok (inr x) resolved h = cc

  module _ (key : ApiKeyInfo) (i : Incoming) (admission : Admission (key, i))
      (evs : List Event) where
    Runs-sent :
        (resolved : Resolved) (d : Redirect) (route : Result (Unit {0}) (Option Assignment))
        → proxy_result key i ≡ inr resolved
        → check_deprecated setup.objects setup.deprecated_models
            (setup.parsers (get_parser i.info.provider))
            key.deprecated_model_behavior
            i
          ≡ ok d
        → send_assigned setup w r key i resolved d route ≡ ok evs
        → Runs evs
    unfolding send_assigned
    Runs-sent resolved d route p c h =
        let (found, a, h1) = bind_ok route _ evs h in
        let (applied, b, h2) = bind_ok (apply_assignment setup.objects i.body d found) _ evs h1 in
        inr (record {
          key = key;
          incoming = i;
          resolved = resolved;
          redirect = d;
          found = found;
          applied = applied;
          is_authorized = admission.0;
          is_read = admission.1;
          is_allowed = admission.2;
          is_resolved = p;
          is_redirected = c;
          is_applied = b;
          is_sent = cc;
        })

    Runs-resolved :
        (s' : State setup) (p : ProxyError ⊎ Resolved)
        → proxy_result key i ≡ p
        → (serve_resolved setup w r key i s' (proxy_key_of p)).events ≡ ok evs
        → Runs evs
    unfolding serve_resolved serve_redirected
    Runs-resolved s' (inl e) at h = inl (refusal 401 (lit "invalid or expired proxy key"), cc)
    Runs-resolved s' (inr resolved) at h =
        on_redirect
          (check_deprecated setup.objects setup.deprecated_models
            (setup.parsers (get_parser i.info.provider)) key.deprecated_model_behavior i)
          refl h
      where
        on_redirect :
            (d : Result (Unit {0}) Redirect)
            → check_deprecated setup.objects setup.deprecated_models
                (setup.parsers (get_parser i.info.provider))
                key.deprecated_model_behavior
                i
              ≡ d
            → (serve_redirected setup w r key i resolved s' d).events ≡ ok evs
            → Runs evs
        on_redirect (ok d) c h =
            Runs-sent resolved d (find_assignment w.router key i key.org_id s'.experiments).0 at c h
        on_redirect (err e) c h = absurd (cc)
        on_redirect panic c h = absurd (cc)
        on_redirect out_of_fuel c h = absurd (cc)

  Runs-admitted :
      (evs : List Event) (m : Result Refusal (ApiKeyInfo × Incoming))
      → admit setup.quote setup.policy key_result r ≡ m
      → (serve_admitted setup w r with_key_cache m).events ≡ ok evs
      → Runs evs
  unfolding serve_admitted
  Runs-admitted evs (ok (key, i)) at h =
      Runs-resolved key i (admit_ok (key, i) at) evs (ask_proxy setup w r key i with_key_cache).1
        (proxy_result key i) refl h
  Runs-admitted evs (err e) at h = inl (e, cc)
  Runs-admitted evs panic at h = absurd (cc)
  Runs-admitted evs out_of_fuel at h = absurd (cc)

  -- A request that the handler answers is refused, or it is sent by the stages of a run.
  pub serve_http-Runs : (evs : List Event) → (serve_http setup w s r).events ≡ ok evs → Runs evs
  unfolding serve_http
  serve_http-Runs evs h = Runs-admitted evs (admit setup.quote setup.policy key_result r) refl h
