-- ===== src/Proxy/RequestLog/Privacy.antt =====
-- Which bodies a log row keeps.
use mathlib.Core.List.{append-nil}
use majordomo_steward.Prelude.{
  ℕ, ◌≤◌, ◌<◌, Bool, true, false, Option, none, some, [], ◌++◌, Str, length, length-take,
  take-append-drop, drop, leb, ltb, arith, ◌≡◌, refl, sym, ap, subst, ◌∙◌, ◌⊎◌, inl, inr, ok,
  bind_ok, ok_injective, Bool-cases, if◌then◌else◌,
}
use majordomo_steward.Auth.Resolver.{ApiKeyInfo}
use majordomo_steward.Proxy.CloudConfig.{CloudStorageConfig, ConfigCache, get_cloud_storage_config}
use majordomo_steward.Proxy.Bodies.{
  LoggingConfig, Exchange, BodyUpload, store_body_to_global_storage, StoredBodies, no_bodies,
  ConfigWorld, ConfigCaches, CloudTarget, Upload, build_body_upload, owned, or_org, target_of,
  choose_target, upload_to, store_body_to_user_or_org_cloud,
}
use majordomo_steward.Proxy.Bodies.Limits.{store_body_to_global_storage-KeepsPrefix}
use majordomo_steward.Proxy.RequestLog.{
  Finished, Logged, LogSetup, stored_after, error_message_of, row_of, log_request,
}

-- Both columns for bodies are empty.
abbrev pub HasNoBodies : StoredBodies → Type 0
HasNoBodies s = (s.request_body ≡ none) × (s.response_body ≡ none)

-- Where a target was chosen: it is the user's own, or the organisation's where the user has none.
abbrev pub IsOwner : ConfigWorld → ApiKeyInfo → ConfigCaches → ℕ → CloudStorageConfig → Type 0
IsOwner w key c owner cfg =
    ((key.user_id ≡ some owner)
      × ((get_cloud_storage_config w.decrypt w.ttl w.has_store c.users owner w.now (w.answer owner)
            w.done).0
          ≡ some cfg))
    ⊎ ((key.org_id ≡ some owner)
        × ((get_cloud_storage_config w.decrypt w.ttl w.has_store c.orgs owner w.now (w.answer owner)
              w.done).0
            ≡ some cfg)
        × ((target_of w key.user_id c.users).0 ≡ none))

target_of_sound :
    (w : ConfigWorld) (id : Option ℕ) (cache : ConfigCache) (owner : ℕ) (cfg : CloudStorageConfig)
    → (target_of w id cache).0 ≡ some (owner, cfg)
    → (id ≡ some owner)
      × ((get_cloud_storage_config w.decrypt w.ttl w.has_store cache owner w.now
            (w.answer owner)
            w.done).0
          ≡ some cfg)
unfolding target_of
target_of_sound w none cache owner cfg h = absurd (cc)
target_of_sound w (some id) cache owner cfg h =
    on_config
      (get_cloud_storage_config w.decrypt w.ttl w.has_store cache id w.now (w.answer id) w.done)
      refl h
  where
    on_config :
        (p : Option CloudStorageConfig × ConfigCache)
        → get_cloud_storage_config w.decrypt w.ttl w.has_store cache id w.now (w.answer id) w.done
          ≡ p
        → (owned id p).0 ≡ some (owner, cfg)
        → (some id ≡ some owner)
          × ((get_cloud_storage_config w.decrypt w.ttl w.has_store cache owner w.now
                (w.answer owner)
                w.done).0
              ≡ some cfg)
    on_config (none, c) at h = absurd (cc)
    on_config (some g, c) at h =
        let same : id ≡ owner = cc in
        let config : g ≡ cfg = cc in
        (
          ap some same,
          subst
              (λ n.
                (get_cloud_storage_config w.decrypt w.ttl w.has_store cache n w.now (w.answer n)
                  w.done).0
                ≡ some cfg)
              same (ap (λ (q : Option CloudStorageConfig × ConfigCache). q.0) at ∙ ap some config),
        )

choose_target-IsOwner :
    (w : ConfigWorld) (key : ApiKeyInfo) (c : ConfigCaches) (owner : ℕ) (cfg : CloudStorageConfig)
    → (choose_target w key.user_id key.org_id c).0 ≡ some (owner, cfg)
    → IsOwner w key c owner cfg
unfolding choose_target
choose_target-IsOwner w key c owner cfg h = on_user (target_of w key.user_id c.users) refl h
  where
    on_user :
        (p : Option CloudTarget × ConfigCache)
        → target_of w key.user_id c.users ≡ p
        → (or_org w key.org_id c.orgs p).0 ≡ some (owner, cfg)
        → IsOwner w key c owner cfg
    on_user (some t, users) at h = inl (
        target_of_sound w key.user_id c.users owner cfg
          (ap (λ (q : Option CloudTarget × ConfigCache). q.0) at ∙ h))
    on_user (none, users) at h =
        let (id, config) = target_of_sound w key.org_id c.orgs owner cfg h in
        inr (id, config, ap (λ (q : Option CloudTarget × ConfigCache). q.0) at)

-- The upload is that of the exchange: its key in the bucket, its request and its response.
abbrev pub IsUploadOf : Exchange → BodyUpload → Type 0
IsUploadOf x u =
    (u.request_body ≡ x.req_body)
    × (u.response_body ≡ x.resp_body)
    × (u.request_id ≡ x.request_id)
    × (u.response_status ≡ x.status)
    × (u.request_path ≡ x.path)

-- Where the bodies of a logged exchange are: both in the bucket of the key's user or organisation, with
-- the row naming the object and its two columns for bodies empty, or in no bucket, and then these columns
-- are empty too if the request is one of Claude Code.
abbrev pub IsPrivate : ConfigWorld → ConfigCaches → Finished → Option Upload → StoredBodies → Type 0
IsPrivate w c f (some up) bodies =
    IsOwner w f.api_key c up.owner_id up.config
    × IsUploadOf f.exchange up.upload
    × (bodies.body_s3_key ≡ some up.upload.key)
    × HasNoBodies bodies
IsPrivate w c f none bodies =
    (bodies.body_s3_key ≡ none) × ((f.is_claude_code ≡ false) ⊎ HasNoBodies bodies)

-- What the column error_message has of a response: nothing of a response with a status below 400, and of
-- another at most its first 500 bytes.
abbrev pub KeepsError : Exchange → Option Str → Type 0
KeepsError x none = x.status < 400
KeepsError x (some message) =
    (400 ≤ x.status) × (length message ≤ 500) × (rest : Str) × (x.resp_body ≡ message ++ rest)

error_message_of-KeepsError : (x : Exchange) → KeepsError x (error_message_of x.status x.resp_body)
unfolding error_message_of
error_message_of-KeepsError x = elim (Bool-cases (leb 400 x.status)) [
  | inr fine ↦ rw fine (ground arith)
  | inl failed ↦ elim (Bool-cases (ltb 500 (length x.resp_body))) [
    | inl long ↦
        rw (failed, long)
          (
            ground arith,
            omega (arith, length-take 500 x.resp_body),
            drop 500 x.resp_body,
            sym (take-append-drop 500 x.resp_body),
          )
    | inr short ↦ rw (failed, short) (ground arith, ground arith, [], sym (append-nil x.resp_body))
  ]
]

store_body_to_global_storage_lem :
    (l : LoggingConfig) (req resp : Str) (s : StoredBodies)
    → store_body_to_global_storage l req resp no_bodies ≡ ok s
    → s.body_s3_key ≡ none
store_body_to_global_storage_lem l req resp s h =
    let (t, at, p, q, key, o) = store_body_to_global_storage-KeepsPrefix l req resp in
    let both : ok t ≡ ok s = sym at ∙ h in
    let same : t ≡ s = cc in ap (λ (b : StoredBodies). b.body_s3_key) (sym same) ∙ key

-- What the storage in a cloud leaves in the row.
abbrev IsCloud : ConfigWorld → ConfigCaches → Finished → Option Upload → StoredBodies → Type 0
IsCloud w c f (some up) s =
    IsOwner w f.api_key c up.owner_id up.config
    × IsUploadOf f.exchange up.upload
    × (s ≡ record no_bodies { body_s3_key = some up.upload.key })
IsCloud w c f none s = s ≡ no_bodies

module _ (uuid_text date_text : ℕ → Str) (w : ConfigWorld) (c : ConfigCaches) (f : Finished) where
  store_body_to_user_or_org_cloud-IsCloud :
      let st =
        store_body_to_user_or_org_cloud uuid_text date_text w f.api_key.id f.api_key.user_id
          f.api_key.org_id f.exchange no_bodies c in
      IsCloud w c f st.uploaded st.bodies
  unfolding store_body_to_user_or_org_cloud upload_to build_body_upload target_of choose_target
  store_body_to_user_or_org_cloud-IsCloud = elim (Bool-cases w.has_body_storage) [
    | inr off ↦ rw off refl
    | inl on ↦ rw on (on_target (choose_target w f.api_key.user_id f.api_key.org_id c) refl)
  ]
    where
      on_target :
          (t : Option CloudTarget × ConfigCaches)
          → choose_target w f.api_key.user_id f.api_key.org_id c ≡ t
          → let st = upload_to uuid_text date_text f.api_key.id f.exchange no_bodies t in
            IsCloud w c f st.uploaded st.bodies
      on_target (none, c') at = refl
      on_target (some (owner, cfg), c') at = (
        choose_target-IsOwner w f.api_key c owner cfg
            (ap (λ (q : Option CloudTarget × ConfigCaches). q.0) at),
        (refl, refl, refl, refl, refl),
        refl,
      )

stored_after-IsPrivate :
    (l : LoggingConfig) (w : ConfigWorld) (c : ConfigCaches) (f : Finished) (u : Option Upload)
    (s bodies : StoredBodies) (c' : ConfigCaches)
    → IsCloud w c f u s
    → stored_after l f.is_claude_code f.exchange (record { uploaded = u; bodies = s; caches = c' })
      ≡ ok bodies
    → IsPrivate w c f u bodies
unfolding stored_after
stored_after-IsPrivate l w c f (some up) s bodies c' (owner, sent, at) h =
    let same : s ≡ bodies = cc in
    subst (λ (b : StoredBodies). IsPrivate w c f (some up) b) (sym at ∙ same)
      (owner, sent, refl, (refl, refl))
stored_after-IsPrivate l w c f none s bodies c' at h = on_claude f.is_claude_code h
  where
    on_claude :
        (b : Bool)
        → (if b
            then ok s
            else store_body_to_global_storage l f.exchange.req_body f.exchange.resp_body s)
          ≡ ok bodies
        → (bodies.body_s3_key ≡ none) × ((b ≡ false) ⊎ HasNoBodies bodies)
    on_claude true h =
        let same : s ≡ bodies = cc in
        subst (λ (x : StoredBodies). (x.body_s3_key ≡ none) × ((true ≡ false) ⊎ HasNoBodies x))
          (sym at ∙ same) (refl, inr (refl, refl))
    on_claude false h = (
      store_body_to_global_storage_lem l f.exchange.req_body f.exchange.resp_body bodies (
          subst
            (λ x.
              store_body_to_global_storage l f.exchange.req_body f.exchange.resp_body x ≡ ok bodies)
            at h),
      inl refl,
    )

-- For every logged exchange: both bodies are uploaded to the bucket of the key's user, or to that of its
-- organisation where the user has none, with the exchange's request, path and status, and the row names
-- the object and its columns for bodies are empty; or nothing is uploaded, the row names no object, and if
-- the request is one of Claude Code its columns for bodies are empty. Whatever the request, the column
-- error_message keeps nothing of a response with a status below 400, and at most the first 500 bytes of
-- the body of another.
pub log_request-IsPrivate :
    {F : Type 0} (setup : LogSetup F) (w : ConfigWorld) (c : ConfigCaches) (f : Finished)
    (l : Logged F)
    → log_request setup w c f ≡ ok l
    → IsPrivate w c f l.uploaded l.row.bodies × KeepsError f.exchange l.row.error_message
unfolding log_request row_of
log_request-IsPrivate setup w c f l h =
    let st =
      store_body_to_user_or_org_cloud setup.uuid_text setup.date_text w f.api_key.id
        f.api_key.user_id f.api_key.org_id f.exchange no_bodies c in
    let (bodies, a, rest) =
      bind_ok (stored_after setup.logging f.is_claude_code f.exchange st) _ l h in
    subst
      (λ (y : Logged _).
        IsPrivate w c f y.uploaded y.row.bodies × KeepsError f.exchange y.row.error_message)
      (ok_injective rest)
      (
        stored_after-IsPrivate setup.logging w c f st.uploaded st.bodies bodies st.caches
            (store_body_to_user_or_org_cloud-IsCloud setup.uuid_text setup.date_text w c f) a,
        error_message_of-KeepsError f.exchange,
      )
