-- ===== src/Proxy/Handler/Sent.antt =====
-- What the request to a provider holds: its headers, its key and its model.
use majordomo_steward.Prelude.{
  ℕ, Bool, true, false, Option, none, some, List, [], ◌∷◌, ◌++◌, Str, lit, ◌≡◌, refl, sym, ap,
  subst, ◌∙◌, inl, inr, Result, ok, err, panic, out_of_fuel, has_prefix, to_lower, str_eq,
  Bool-cases,
}
use majordomo_steward.Provider.{is_translation_required}
use majordomo_steward.Provider.Translator.{translate_openai_to_anthropic}
use majordomo_steward.Auth.Resolver.{ApiKeyInfo}
use majordomo_steward.Proxy.Headers.{Header}
use majordomo_steward.Proxy.Headers.Forwarded.{values_of, values_in, values_of-copy_headers}
use majordomo_steward.Proxy.Experiment.{Assignment}
use majordomo_steward.Proxy.Experiment.Override.{ObjectJson, override_model}
use majordomo_steward.Proxy.RequestLog.{Finished}
use majordomo_steward.Proxy.Request.{Request, Incoming, get, del, read_request, with_provider_key}
use majordomo_steward.Proxy.Handler.Plan.{
  Redirect, Forwarded, forward, assigned, apply_assignment, translate_request, anthropic_header,
}
use majordomo_steward.Proxy.Handler.{
  Setup, World, State, Event, forwarded, logged, Response, log_and_finish, send, serve_http,
  outgoing_of, request_of, finish_with, uses_streaming,
}
use majordomo_steward.Proxy.Handler.Runs.{Run, Runs, key_result, proxy_result, serve_http-Runs}
use majordomo_steward.Proxy.Handler.Exchange.{Ends, answered-Ends}

abbrev first_request : Forwarded → List Event → Forwarded
first_request d (forwarded f ∷ rest) = f
first_request d _ = d

abbrev rest_of : List Event → List Event
rest_of [] = []
rest_of (e ∷ rest) = rest

-- A body that is sent with an assignment has the model of the assignment.
apply_assignment_sound :
    (json : ObjectJson) (body sent : Str) (d : Redirect) (found : Option Assignment)
    (a : Assignment)
    → apply_assignment json body d found ≡ ok (sent, some a)
    → override_model json body a.assigned_model ≡ ok sent
unfolding apply_assignment
apply_assignment_sound json body sent d none a h = absurd (cc)
apply_assignment_sound json body sent d (some b) a h =
    on_override (override_model json body b.assigned_model) refl h
  where
    on_override :
        (m : Result (Unit {0}) Str)
        → override_model json body b.assigned_model ≡ m
        → assigned d b m ≡ ok (sent, some a)
        → override_model json body a.assigned_model ≡ ok sent
    on_override (ok o) at h =
        let same : b ≡ a = cc in
        let out : o ≡ sent = cc in
        subst (λ (x : Assignment). override_model json body x.assigned_model ≡ ok sent) same
          (at ∙ ap ok out)
    on_override (err e) at h = absurd (cc)
    on_override panic at h = absurd (cc)
    on_override out_of_fuel at h = absurd (cc)

-- The header has no entry of the name.
abbrev Absent : Str → Header → Type 0
Absent name [] = Unit
Absent name ((j, values) ∷ h) = (str_eq j name ≡ false) × Absent name h

del-Absent : (name : Str) (h : Header) → Absent name (del name h)
del-Absent name [] = tt
del-Absent name ((j, values) ∷ h) = elim (Bool-cases (str_eq j name)) [
  | inl same ↦ rw same (del-Absent name h)
  | inr other ↦ rw other (other, del-Absent name h)
]

del_other-Absent : (name j : Str) (h : Header) → Absent name h → Absent name (del j h)
del_other-Absent name j [] a = tt
del_other-Absent name j ((i, values) ∷ h) (n, a) = elim (Bool-cases (str_eq i j)) [
  | inl same ↦ rw same (del_other-Absent name j h a)
  | inr other ↦ rw other (n, del_other-Absent name j h a)
]

values_in-Absent : (name : Str) (h : Header) → Absent name h → values_in name h ≡ []
values_in-Absent name [] a = refl
values_in-Absent name ((j, values) ∷ h) (n, a) = rw n (values_in-Absent name h a)

-- The provider key, as the provider that is asked wants it: as a bearer token, or, where the request
-- is translated, as an API key and without the header Authorization.
abbrev pub HasKey : Bool → Str → Forwarded → Type 0
HasKey false key f = values_of (lit "Authorization") f.header ≡ (lit "Bearer " ++ key) ∷ []
HasKey true key f =
    (values_of (lit "X-Api-Key") f.header ≡ key ∷ [])
    × (values_of (lit "Authorization") f.header ≡ [])

module _ {F : Type 0} (setup : Setup F) (w : World) (s : State setup) (r : Request) where
  -- The request of a run is the one that its stages make.
  sent_request :
      (f : Forwarded) (rest : List Event)
      → (serve_http setup w s r).events ≡ ok (forwarded f ∷ rest)
      → (run : Run setup w s r (forwarded f ∷ rest)) × (f
          ≡ request_of setup r run.incoming
              (outgoing_of setup r run.incoming run.resolved run.applied.0))
  unfolding send
  sent_request f rest h = on_runs (serve_http-Runs setup w s r _ h)
    where
      on_runs :
          Runs setup w s r (forwarded f ∷ rest)
          → (run : Run setup w s r (forwarded f ∷ rest)) × (f
              ≡ request_of setup r run.incoming
                  (outgoing_of setup r run.incoming run.resolved run.applied.0))
      on_runs (inl (e, at)) = absurd (cc)
      on_runs (inr run) = (run, ap (first_request f) run.is_sent)

  -- No header whose name begins with X-Majordomo, in any case of its letters, reaches a provider, with
  -- whatever key, policy and upstream ServeHTTP runs.
  pub forwarded-NoMajordomo :
      (f : Forwarded) (rest : List Event) (name : Str)
      → (serve_http setup w s r).events ≡ ok (forwarded f ∷ rest)
      → has_prefix (to_lower name) (lit "x-majordomo") ≡ true
      → values_of name f.header ≡ []
  unfolding forward
  forwarded-NoMajordomo f rest name h p =
      let (run, at) = sent_request f rest h in
      let o = outgoing_of setup r run.incoming run.resolved run.applied.0 in
      rw at (values_of-copy_headers name o.header [] ∙ rw p refl)

  logged_with :
      (f : Forwarded) (e : Event) (x : Finished)
      (run : Run setup w s r (forwarded f ∷ e ∷ logged x ∷ []))
      → (resp : Response) × (x
          ≡ finish_with setup w r run.key run.incoming run.resolved run.redirect run.applied.1
              (outgoing_of setup r run.incoming run.resolved run.applied.0)
              resp)
  unfolding send
  logged_with f e x run =
      let o = outgoing_of setup r run.incoming run.resolved run.applied.0 in
      let finish =
        finish_with setup w r run.key run.incoming run.resolved run.redirect run.applied.1 o in
      let ends =
        answered-Ends setup (uses_streaming setup run.incoming)
          (get (lit "Accept-Encoding") o.header) run.redirect.warnings finish
          (w.upstream (request_of setup r run.incoming o)) in
      let (resp, same, answers) = subst (Ends setup finish) (sym (ap rest_of run.is_sent)) ends in
      (resp, same)

  -- When the log of a request of a provider that needs no translation names an assignment to an arm of
  -- an experiment, the body that was sent is the body of the client with the model of that arm.
  pub assignment-Sent :
      (f : Forwarded) (e : Event) (x : Finished) (a : Assignment)
      → (serve_http setup w s r).events ≡ ok (forwarded f ∷ e ∷ logged x ∷ [])
      → x.assignment ≡ some a
      → is_translation_required x.provider ≡ false
      → override_model setup.objects x.exchange.req_body a.assigned_model ≡ ok f.body
  unfolding log_and_finish forward translate_request
  assignment-Sent f e x a h k n =
      let (run, at) = sent_request f (e ∷ logged x ∷ []) h in
      let (resp, same) = logged_with f e x run in
      let arm : run.applied.1 ≡ some a = sym (ap (λ (y : Finished). y.assignment) same) ∙ k in
      let plain : is_translation_required run.incoming.info.provider ≡ false =
        sym (ap (λ (y : Finished). is_translation_required y.provider) same) ∙ n in
      let body : f.body ≡ run.applied.0 = ap (λ (g : Forwarded). g.body) at ∙ rw plain refl in
      let applied =
        apply_assignment_sound setup.objects run.incoming.body run.applied.0 run.redirect run.found
          a (run.is_applied ∙ ap (λ b. ok (run.applied.0, b)) arm) in
      rw (same, body) applied

  key_of_Run :
      (evs : List Event) (run : Run setup w s r evs) (key : ApiKeyInfo) (i : Incoming)
      → key_result setup w s r ≡ ok (some key)
      → read_request setup.quote r ≡ ok i
      → (run.key ≡ key) × (run.incoming ≡ i)
  key_of_Run evs run key i k d =
      let a : ok (some run.key) ≡ ok (some key) = sym run.is_authorized ∙ k in
      let b : ok run.incoming ≡ ok i = sym run.is_read ∙ d in (cc, cc)

  request-HasKey :
      (i : Incoming) (body : Str) (c : ℕ) (k : Str) (id : Option ℕ)
      → HasKey
          (is_translation_required i.info.provider)
          (c ∷ k)
          (request_of setup r i (outgoing_of setup r i (c ∷ k, id) body))
  unfolding forward translate_request
  request-HasKey i body c k id = elim (Bool-cases (is_translation_required i.info.provider)) [
    | inl on ↦ rw on (
      values_of-copy_headers (lit "X-Api-Key") translated []
          ∙ ap (λ l. (c ∷ k) ∷ l)
              (values_in-Absent _ _ (
                del_other-Absent _ (lit "Anthropic-Version") _ (
                  del_other-Absent _ (lit "Authorization") _
                    (del-Absent (lit "X-Api-Key") (del (lit "Authorization") r.header))))),
      values_of-copy_headers (lit "Authorization") translated []
          ∙ values_in-Absent _ _ (
              del_other-Absent _ (lit "Anthropic-Version") _ (
                del-Absent (lit "Authorization")
                  (del (lit "X-Api-Key") (del (lit "Authorization") r.header)))),
    )
    | inr off ↦ rw off (
        values_of-copy_headers (lit "Authorization") bearer []
        ∙ ap (λ l. (lit "Bearer " ++ (c ∷ k)) ∷ l)
            (values_in-Absent _ _ (del-Absent (lit "Authorization") r.header)))
  ]
    where
      bearer : Header
      bearer = with_provider_key (c ∷ k, id) r.header

      translated : Header
      translated = anthropic_header (get (lit "Authorization") bearer) bearer

  -- When the proxy key of a request that is sent was resolved to a provider key that is not empty, the
  -- request to the provider has that key and no other: as the only value of Authorization, or, where
  -- the request is translated, as the only value of X-Api-Key, and no Authorization at all.
  pub proxy_key-Replaced :
      (f : Forwarded) (rest : List Event) (key : ApiKeyInfo) (i : Incoming) (c : ℕ) (k : Str)
      (id : Option ℕ)
      → (serve_http setup w s r).events ≡ ok (forwarded f ∷ rest)
      → key_result setup w s r ≡ ok (some key)
      → read_request setup.quote r ≡ ok i
      → proxy_result setup w s r key i ≡ inr (c ∷ k, id)
      → HasKey (is_translation_required i.info.provider) (c ∷ k) f
  unfolding forward translate_request
  proxy_key-Replaced f rest key i c k id h kr ir pr =
      let (run, at) = sent_request f rest h in
      let (same_key, same) = key_of_Run _ run key i kr ir in
      let by_key : proxy_result setup w s r key run.incoming ≡ inr run.resolved =
        subst (λ x. proxy_result setup w s r x run.incoming ≡ inr run.resolved) same_key
          run.is_resolved in
      let by_request : proxy_result setup w s r key i ≡ inr run.resolved =
        subst (λ j. proxy_result setup w s r key j ≡ inr run.resolved) same by_key in
      let answer : inr (c ∷ k, id) ≡ inr run.resolved = sym pr ∙ by_request in
      let resolved : run.resolved ≡ (c ∷ k, id) = cc in
      let sent : f
          ≡ request_of setup r run.incoming
              (outgoing_of setup r run.incoming (c ∷ k, id) run.applied.0) =
        at
        ∙ ap
            (λ x.
              request_of setup r run.incoming (outgoing_of setup r run.incoming x run.applied.0))
            resolved in
      subst (λ j. HasKey (is_translation_required j.info.provider) (c ∷ k) f) same
        (subst (HasKey (is_translation_required run.incoming.info.provider) (c ∷ k)) (sym sent)
          (request-HasKey run.incoming run.applied.0 c k id))

  -- When the request that was read goes to a provider whose requests are translated and its body
  -- translates, the body that is sent is that translation of the client's own body, whatever
  -- deprecated model was redirected and whatever experiment the request was assigned to.
  pub translation-Sent :
      (f : Forwarded) (rest : List Event) (i : Incoming) (body path : Str)
      → (serve_http setup w s r).events ≡ ok (forwarded f ∷ rest)
      → read_request setup.quote r ≡ ok i
      → is_translation_required i.info.provider ≡ true
      → translate_openai_to_anthropic setup.json i.body ≡ some (body, path)
      → f.body ≡ body
  unfolding forward translate_request
  translation-Sent f rest i body path h ir on tr =
      let (run, at) = sent_request f rest h in
      let b : ok run.incoming ≡ ok i = sym run.is_read ∙ ir in
      let same : run.incoming ≡ i = cc in ap (λ (g : Forwarded). g.body) at ∙ rw (same, on, tr) refl
