-- ===== src/Proxy/Bodies.antt =====
-- Where the bodies of a request and its response are stored: storeBodyToUserOrOrgCloud,
-- storeBodyToGlobalStorage, buildBodyUpload and truncateBody of internal/proxy/handler.go, and the
-- limits of internal/config/config.go. The texts of identifiers and dates are parameters.
pub mod Limits
use majordomo_steward.Prelude.{
  ℕ, Bool, true, false, not, Option, none, some, List, [], ◌∷◌, ◌++◌, Str, lit, str_eq, length,
  take, if◌then◌else◌, Result, ok, panic, ◌>>=◌,
}
use majordomo_steward.Prelude.Int.{ℤ, pos, negsuc, ltb_ℤ}
use majordomo_steward.Proxy.Headers.{Header}
use majordomo_steward.Proxy.CloudConfig.{
  CloudStorageConfig, ConfigCache, RecordAnswer, get_cloud_storage_config,
}

-- The fields of config.LoggingConfig that the handler reads.
pub record LoggingConfig : Type 0 where
  pub store_request_body : Bool
  pub store_response_body : Bool
  pub max_body_size : ℤ
  pub max_request_body_size : ℤ
  pub max_response_body_size : ℤ
  pub body_storage : Str

-- The body of EffectiveMaxRequestBodySize and EffectiveMaxResponseBodySize, on their own limit and
-- the common one.
unfoldable pub effective_max : ℤ → ℤ → ℤ
effective_max own common =
    if ltb_ℤ (pos 0) own then own else if ltb_ℤ (pos 0) common then common else pos 65536

abbrev pub effective_max_request_body_size : LoggingConfig → ℤ
effective_max_request_body_size l = effective_max l.max_request_body_size l.max_body_size

abbrev pub effective_max_response_body_size : LoggingConfig → ℤ
effective_max_response_body_size l = effective_max l.max_response_body_size l.max_body_size

-- `body[:maxSize]`, which panics below zero.
abbrev pub cut_at : ℤ → Str → Result (Unit {0}) Str
cut_at (pos n) body = ok (take n body)
cut_at (negsuc n) body = panic

unfoldable pub truncate_body : Str → ℤ → Result (Unit {0}) Str
truncate_body body max_size =
    if not (ltb_ℤ max_size (pos (length body))) then ok body else cut_at max_size body

-- The columns of the request log that say where the bodies are.
pub record StoredBodies : Type 0 where
  pub request_body : Option Str
  pub response_body : Option Str
  pub body_s3_key : Option Str

abbrev pub no_bodies : StoredBodies
no_bodies = record { request_body = none; response_body = none; body_s3_key = none }

-- `if store { body := truncateBody(body, max); log.… = &body }`
abbrev pub kept_body : Bool → Str → ℤ → Option Str → Result (Unit {0}) (Option Str)
kept_body store body max_size before =
    if store then (truncate_body body max_size >>= λ b. ok (some b)) else ok before

unfoldable pub store_body_to_global_storage :
    LoggingConfig → Str → Str → StoredBodies → Result (Unit {0}) StoredBodies
unfolding truncate_body effective_max
store_body_to_global_storage l req_body resp_body s =
    if str_eq l.body_storage (lit "postgres")
    then (kept_body l.store_request_body req_body (effective_max_request_body_size l) s.request_body
        >>= λ req.
            kept_body l.store_response_body resp_body (effective_max_response_body_size l)
              s.response_body
            >>= λ resp. ok (record s { request_body = req; response_body = resp }))
    else ok s

-- ExtractResponseHeaders of internal/storage/s3.go, the newest entry first.
unfoldable pub extract_response_headers : Header → List (Str × Str)
extract_response_headers [] = []
extract_response_headers ((key, []) ∷ h) = extract_response_headers h
extract_response_headers ((key, v ∷ values) ∷ h) = (key, v) ∷ extract_response_headers h

-- storage.BodyUpload
pub record BodyUpload : Type 0 where
  pub key : Str
  pub request_id : ℕ
  pub timestamp : ℕ
  pub request_method : Str
  pub request_path : Str
  pub request_headers : List (Str × Str)
  pub request_body : Str
  pub response_status : ℕ
  pub response_headers : List (Str × Str)
  pub response_body : Str

-- What the handler knows of the exchange when it stores the bodies.
pub record Exchange : Type 0 where
  pub request_id : ℕ
  pub requested_at : ℕ
  pub method : Str
  pub path : Str
  pub custom_headers : List (Str × Str)
  pub req_body : Str
  pub status : ℕ
  pub resp_headers : Header
  pub resp_body : Str

unfoldable pub build_body_upload : Str → Exchange → BodyUpload
build_body_upload key x = record {
  key = key;
  request_id = x.request_id;
  timestamp = x.requested_at;
  request_method = x.method;
  request_path = x.path;
  request_headers = x.custom_headers;
  request_body = x.req_body;
  response_status = x.status;
  response_headers = extract_response_headers x.resp_headers;
  response_body = x.resp_body;
}

-- A call of UserBodyStorage.Upload: the owner of the bucket, its configuration, and the upload.
pub record Upload : Type 0 where
  pub owner_id : ℕ
  pub config : CloudStorageConfig
  pub upload : BodyUpload

-- What the caches of configurations are given in one call, and what the stores would answer.
pub record ConfigWorld : Type 0 where
  pub has_body_storage : Bool
  pub has_store : Bool
  pub ttl : ℕ
  pub now : ℕ
  pub done : ℕ
  pub answer : ℕ → RecordAnswer
  pub decrypt : Str → Option Str

pub record ConfigCaches : Type 0 where
  pub users : ConfigCache
  pub orgs : ConfigCache

-- The owner of a bucket and its configuration: `cloudTarget`.
abbrev pub CloudTarget : Type 0
CloudTarget = ℕ × CloudStorageConfig

-- `if cfg := h.get…CloudStorageConfig(ctx, *id); cfg != nil { target = … }`
abbrev pub owned : ℕ → Option CloudStorageConfig × ConfigCache → Option CloudTarget × ConfigCache
owned owner (none, cache) = (none, cache)
owned owner (some cfg, cache) = (some (owner, cfg), cache)

-- The target of an identifier that may be nil.
unfoldable pub target_of : ConfigWorld → Option ℕ → ConfigCache → Option CloudTarget × ConfigCache
target_of w none cache = (none, cache)
target_of w (some owner) cache =
    owned owner (
      get_cloud_storage_config w.decrypt w.ttl w.has_store cache owner w.now (w.answer owner)
        w.done)

-- `if target == nil && apiKeyInfo.OrgID != nil { … }`
abbrev pub or_org :
    ConfigWorld
    → Option ℕ
    → ConfigCache
    → Option CloudTarget × ConfigCache
    → Option CloudTarget × ConfigCaches
or_org w org_id orgs (some target, users) = (some target, record { users = users; orgs = orgs })
or_org w org_id orgs (none, users) =
    let (by_org, orgs') = target_of w org_id orgs in
    (by_org, record { users = users; orgs = orgs' })

-- The organisation is asked only where the user gives no target.
unfoldable pub choose_target :
    ConfigWorld → Option ℕ → Option ℕ → ConfigCaches → Option CloudTarget × ConfigCaches
choose_target w user_id org_id c = or_org w org_id c.orgs (target_of w user_id c.users)

-- The upload that is fired, none where the source returns false, the columns and the caches after it.
pub record CloudStored : Type 0 where
  pub uploaded : Option Upload
  pub bodies : StoredBodies
  pub caches : ConfigCaches

module _ (uuid_text date_text : ℕ → Str) where
  -- GenerateS3Key of internal/storage/s3_user.go
  unfoldable pub generate_s3_key : ℕ → ℕ → ℕ → Str
  generate_s3_key api_key_id request_id timestamp =
      uuid_text api_key_id
      ++ (lit "/" ++ (date_text timestamp ++ (lit "/" ++ (uuid_text request_id ++ lit ".json.gz"))))

  unfoldable pub upload_to :
      ℕ → Exchange → StoredBodies → Option CloudTarget × ConfigCaches → CloudStored
  upload_to api_key_id x s (none, c) = record { uploaded = none; bodies = s; caches = c }
  upload_to api_key_id x s (some (owner, cfg), c) =
      let key = generate_s3_key api_key_id x.request_id x.requested_at in
      let up : Upload = record {
        owner_id = owner;
        config = cfg;
        upload = build_body_upload key x;
      } in
      record { uploaded = some up; bodies = record s { body_s3_key = some key }; caches = c }

  unfoldable pub store_body_to_user_or_org_cloud :
      ConfigWorld → ℕ → Option ℕ → Option ℕ → Exchange → StoredBodies → ConfigCaches → CloudStored
  store_body_to_user_or_org_cloud w api_key_id user_id org_id x s c =
      if not w.has_body_storage
      then record { uploaded = none; bodies = s; caches = c }
      else upload_to api_key_id x s (choose_target w user_id org_id c)
