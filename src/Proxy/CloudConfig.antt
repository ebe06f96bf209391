-- ===== src/Proxy/CloudConfig.antt =====
-- The cloud storage of a user or an organisation: getUserCloudStorageConfig, getOrgCloudStorageConfig and
-- resolveCloudConfig of internal/proxy/handler.go. The decryption is a parameter, none for an error.
use majordomo_steward.Prelude.{
  ℕ, ◌-◌, Bool, not, Option, none, some, [], ◌∷◌, Str, lit, ltb, str_eq, update, if◌then◌else◌,
}
use majordomo_steward.Prelude.Options.{◌>>=◌}

-- The fields of models.CloudStorageRecord that are read.
pub record CloudStorageRecord : Type 0 where
  pub provider : Str
  pub s3_bucket : Option Str
  pub s3_region : Option Str
  pub s3_endpoint : Option Str
  pub s3_access_key_id_encrypted : Option Str
  pub s3_secret_access_key_encrypted : Option Str
  pub gcs_bucket : Option Str
  pub gcs_project_id : Option Str
  pub gcs_credentials_json_encrypted : Option Str

-- models.UserCloudStorageConfig
pub record CloudStorageConfig : Type 0 where
  pub provider : Str
  pub bucket : Str
  pub region : Str
  pub endpoint : Str
  pub access_key_id : Str
  pub secret_access_key : Str
  pub gcs_bucket : Str
  pub gcs_project_id : Str
  pub gcs_credentials_json : Str

-- `if p != nil { *p } else { d }`
abbrev pub text_or : Str → Option Str → Str
text_or d none = d
text_or d (some s) = s

-- The bucket, where it is set and not empty.
abbrev pub bucket_of : Option Str → Option Str
bucket_of none = none
bucket_of (some []) = none
bucket_of (some (c ∷ bucket)) = some (c ∷ bucket)

module _ (decrypt : Str → Option Str) where
  unfoldable pub resolve_gcs : CloudStorageRecord → Option CloudStorageConfig
  resolve_gcs rec = do
    bucket ← bucket_of rec.gcs_bucket
    encrypted ← rec.gcs_credentials_json_encrypted
    credentials ← decrypt encrypted
    some (record {
      provider = lit "gcs";
      bucket = [];
      region = [];
      endpoint = [];
      access_key_id = [];
      secret_access_key = [];
      gcs_bucket = bucket;
      gcs_project_id = text_or [] rec.gcs_project_id;
      gcs_credentials_json = credentials;
    })

  unfoldable pub resolve_s3 : CloudStorageRecord → Option CloudStorageConfig
  resolve_s3 rec = do
    bucket ← bucket_of rec.s3_bucket
    access_encrypted ← rec.s3_access_key_id_encrypted
    secret_encrypted ← rec.s3_secret_access_key_encrypted
    access_key_id ← decrypt access_encrypted
    secret_key ← decrypt secret_encrypted
    some (record {
      provider = lit "s3";
      bucket = bucket;
      region = text_or (lit "us-east-1") rec.s3_region;
      endpoint = text_or [] rec.s3_endpoint;
      access_key_id = access_key_id;
      secret_access_key = secret_key;
      gcs_bucket = [];
      gcs_project_id = [];
      gcs_credentials_json = [];
    })

  unfoldable pub resolve_cloud_config : Option CloudStorageRecord → Option CloudStorageConfig
  resolve_cloud_config none = none
  resolve_cloud_config (some rec) =
      if str_eq rec.provider (lit "gcs") then resolve_gcs rec else resolve_s3 rec

pub record CachedConfig : Type 0 where
  pub config : Option CloudStorageConfig
  pub fetched_at : ℕ

-- The cache of the users or that of the organisations, by identifier.
abbrev pub ConfigCache : Type 0
ConfigCache = ℕ → Option CachedConfig

abbrev pub fresh_config : ℕ → ℕ → Option CachedConfig → Option (Option CloudStorageConfig)
fresh_config ttl now none = none
fresh_config ttl now (some entry) =
    if ltb (now - entry.fetched_at) ttl then some entry.config else none

-- What GetCloudStorageConfig answers: none for an error, `some none` for no record.
abbrev pub RecordAnswer : Type 0
RecordAnswer = Option (Option CloudStorageRecord)

abbrev pub config_of_answer : (Str → Option Str) → RecordAnswer → Option CloudStorageConfig
config_of_answer decrypt none = none
config_of_answer decrypt (some rec) = resolve_cloud_config decrypt rec

-- getUserCloudStorageConfig and getOrgCloudStorageConfig, which have the same body over two caches.
-- `has_store` says that the configuration store and the secret store are set.
unfoldable pub get_cloud_storage_config :
    (Str → Option Str)
    → ℕ
    → Bool
    → ConfigCache
    → ℕ
    → ℕ
    → RecordAnswer
    → ℕ
    → Option CloudStorageConfig × ConfigCache
get_cloud_storage_config decrypt ttl has_store cache owner now answer done =
    elim (fresh_config ttl now (cache owner)) [
      | some config ↦ (config, cache)
      | none ↦
          if not has_store
          then (none, cache)
          else (let config = config_of_answer decrypt answer in
              let entry : CachedConfig = record { config = config; fetched_at = done } in
              (config, update cache owner (some entry)))
    ]
