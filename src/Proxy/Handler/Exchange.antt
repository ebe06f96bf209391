-- ===== src/Proxy/Handler/Exchange.antt =====
-- The calls of a run of ServeHTTP: which requests reach a provider, and what is logged of them.
use majordomo_steward.Prelude.{
  ℕ, Bool, not, ◌&&◌, Option, none, some, List, [], ◌∷◌, Str, lit, length, contains, ◌≡◌, refl, sym,
  ap, subst, ◌∙◌, inl, inr, ok, if◌then◌else◌, Bool-cases,
}
use majordomo_steward.Auth.Resolver.{ApiKeyInfo}
use majordomo_steward.Auth.ProxyResolver.{Resolved}
use majordomo_steward.Proxy.Headers.{copy_response_headers}
use majordomo_steward.Proxy.Compression.{should_compress}
use majordomo_steward.Proxy.RequestLog.{Finished}
use majordomo_steward.Proxy.Request.{Request, Incoming, get, read_request, enforce}
use majordomo_steward.Proxy.Handler.Plan.{Forwarded}
use majordomo_steward.Proxy.Handler.{
  Setup, World, State, Event, forwarded, responded, logged, UpstreamAnswer, Response, response_of,
  translate_back, gzipped, write_response, is_stream, answered, log_and_finish, send, serve_http,
  outgoing_of, request_of, finish_with, uses_streaming,
}
use majordomo_steward.Proxy.Handler.Runs.{Run, Runs, key_result, proxy_result, serve_http-Runs}

module _ {F : Type 0} (setup : Setup F) where
  -- The event is a response with the status.
  abbrev pub Answers : ℕ → Event → Type 0
  Answers status (responded st h b) = st ≡ status
  Answers status e = ⊥

  write_response-Answers :
      (accept : Str) (warnings : List (Str × Str)) (resp : Response)
      → Answers resp.status (write_response setup accept warnings resp)
  unfolding write_response
  write_response-Answers accept warnings resp =
      elim (Bool-cases (
        not (contains (get (lit "Content-Type") resp.header) (lit "text/event-stream"))
        && should_compress accept (get (lit "Content-Type") resp.header) (length resp.body))) [
          | inl h ↦ rw h (on_gzip (setup.gzip resp.body))
          | inr n ↦ rw n refl
        ]
    where
      on_gzip :
          (o : Option Str)
          → Answers resp.status (gzipped setup resp (copy_response_headers resp.header warnings) o)
      on_gzip none = refl
      on_gzip (some c) = refl

  -- After the request: a 502 alone, or a response and the log of a response of its status.
  abbrev pub Ends : (Response → Finished) → List Event → Type 0
  Ends finish (e ∷ []) = Answers 502 e
  Ends finish (e ∷ logged x ∷ []) = (resp : Response) × (x ≡ finish resp) × Answers resp.status e
  Ends finish _ = ⊥

  pub answered-Ends :
      (streaming : Bool) (accept : Str) (warnings : List (Str × Str)) (finish : Response → Finished)
      (answer : Option UpstreamAnswer)
      → Ends finish (answered setup streaming accept warnings finish answer)
  unfolding answered
  answered-Ends streaming accept warnings finish none = refl
  answered-Ends streaming accept warnings finish (some a) =
      elim (Bool-cases (streaming && is_stream setup (get (lit "Content-Type") a.header))) [
        | inl h ↦ rw h (response_of setup a, refl, refl)
        | inr n ↦ rw n (elim (Bool-cases a.complete) [
          | inl c ↦
              let sent : Response =
                if streaming
                then response_of setup a
                else translate_back setup (response_of setup a) in
              rw c (sent, refl, write_response-Answers accept warnings sent)
          | inr i ↦ rw i refl
        ])
      ]

  module _ (w : World) (s : State setup) (r : Request) where
    -- The key was resolved, the request was read, the policy allows it, and its proxy key, if it has
    -- one, was resolved too.
    abbrev pub Permitted : ApiKeyInfo → Type 0
    Permitted key =
        (key_result setup w s r ≡ ok (some key))
        × ((i : Incoming) × (read_request setup.quote r ≡ ok i)
            × (enforce setup.policy key i ≡ ok i)
            × ((resolved : Resolved) × (proxy_result setup w s r key i ≡ inr resolved)))

    -- One response and nothing else; or one permitted request to a provider, and then a response 502, or
    -- a response with the log of its status and of the permitted key.
    abbrev pub IsExchange : List Event → Type 0
    IsExchange (responded st h b ∷ []) = Unit
    IsExchange (forwarded f ∷ e ∷ []) = (key : ApiKeyInfo) × Permitted key × Answers 502 e
    IsExchange (forwarded f ∷ e ∷ logged x ∷ []) = Permitted x.api_key × Answers x.exchange.status e
    IsExchange _ = ⊥

    Permitted-Run : (evs : List Event) (run : Run setup w s r evs) → Permitted run.key
    Permitted-Run evs run = (
      run.is_authorized,
      (run.incoming, run.is_read, run.is_allowed, (run.resolved, run.is_resolved)),
    )

    IsExchange-of :
        (key : ApiKeyInfo) (f : Forwarded) (finish : Response → Finished) (rest : List Event)
        → Permitted key
        → ((resp : Response) → (finish resp).api_key ≡ key)
        → ((resp : Response) → (finish resp).exchange.status ≡ resp.status)
        → Ends finish rest
        → IsExchange (forwarded f ∷ rest)
    IsExchange-of key f finish [] p k st ends = elim ends [ ]
    IsExchange-of key f finish (e ∷ (forwarded _ ∷ _)) p k st ends = elim ends [ ]
    IsExchange-of key f finish (e ∷ (responded _ _ _ ∷ _)) p k st ends = elim ends [ ]
    IsExchange-of key f finish (e ∷ (logged x ∷ (_ ∷ _))) p k st ends = elim ends [ ]
    IsExchange-of key f finish (e ∷ []) p k st ends = (key, p, ends)
    IsExchange-of key f finish (e ∷ logged x ∷ []) p k st (resp, same, answers) =
        let at : x.api_key ≡ key = ap (λ (y : Finished). y.api_key) same ∙ k resp in
        let status : x.exchange.status ≡ resp.status =
          ap (λ (y : Finished). y.exchange.status) same ∙ st resp in
        (subst Permitted (sym at) p, subst (λ n. Answers n e) (sym status) answers)

    IsExchange-send :
        (evs : List Event) (run : Run setup w s r evs)
        → IsExchange (send setup w r run.key run.incoming run.resolved run.redirect run.applied)
    unfolding send log_and_finish
    IsExchange-send evs run =
        let o = outgoing_of setup r run.incoming run.resolved run.applied.0 in
        let finish =
          finish_with setup w r run.key run.incoming run.resolved run.redirect run.applied.1 o in
        IsExchange-of run.key (request_of setup r run.incoming o) finish _ (Permitted-Run evs run)
          (λ resp. refl) (λ resp. refl)
          (answered-Ends (uses_streaming setup run.incoming) (get (lit "Accept-Encoding") o.header)
            run.redirect.warnings finish (w.upstream (request_of setup r run.incoming o)))

    IsExchange-Runs : (evs : List Event) → Runs setup w s r evs → IsExchange evs
    IsExchange-Runs evs (inl (e, at)) = subst IsExchange (sym at) tt
    IsExchange-Runs evs (inr run) = subst IsExchange (sym run.is_sent) (IsExchange-send evs run)

    -- When ServeHTTP returns, its calls are one response to the client alone, or one request to a
    -- provider with one response after it, and a log of the same status unless the response is a 502
    -- of the steward. A request reaches a provider only after the Majordomo key was resolved to the
    -- key of the log, the policy allowed the request, and the proxy key was resolved without an error.
    pub serve_http-IsExchange :
        (evs : List Event) → (serve_http setup w s r).events ≡ ok evs → IsExchange evs
    serve_http-IsExchange evs h = IsExchange-Runs evs (serve_http-Runs setup w s r evs h)
