-- ===== src/Proxy/RequestLog/Tests.antt =====
-- Runs of the model of logRequest, and the theorems at them.
use majordomo_steward.Prelude.{
  true, false, none, some, [], Str, lit, ◌≡◌, refl, ok, str_eq, ◌⊎◌, update,
}
use majordomo_steward.Prelude.Int.{pos, negsuc}
use majordomo_steward.Provider.{anthropic}
use majordomo_steward.Pricing.{Floats}
use majordomo_steward.Proxy.CloudConfig.{
  CloudStorageRecord, CloudStorageConfig, get_cloud_storage_config, resolve_cloud_config,
  resolve_s3,
}
use majordomo_steward.Proxy.Bodies.{
  build_body_upload, truncate_body, effective_max, store_body_to_user_or_org_cloud, upload_to,
  choose_target, target_of, generate_s3_key, LoggingConfig, StoredBodies, no_bodies, ConfigWorld,
  ConfigCaches, effective_max_request_body_size, effective_max_response_body_size,
  store_body_to_global_storage,
}
use majordomo_steward.Proxy.Bodies.Limits.{KeepsPrefix, store_body_to_global_storage-KeepsPrefix}
use majordomo_steward.Proxy.RequestLog.{
  Finished, Logged, LogSetup, log_request, row_of, stored_after, claude_metadata_for,
}
use majordomo_steward.Proxy.RequestLog.Privacy.{IsPrivate, KeepsError, log_request-IsPrivate}

abbrev logging : LoggingConfig
logging = record {
  store_request_body = true;
  store_response_body = true;
  max_body_size = pos 3;
  max_request_body_size = negsuc 0;
  max_response_body_size = pos 5;
  body_storage = lit "postgres";
}

store-cut :
    store_body_to_global_storage logging (lit "prompt") (lit "text") no_bodies
    ≡ ok (record {
      request_body = some (lit "pro");
      response_body = some (lit "text");
      body_s3_key = none;
    })
unfolding store_body_to_global_storage truncate_body effective_max
store-cut = refl

store_body_to_global_storage-KeepsPrefix_example :
    (s : StoredBodies) × (store_body_to_global_storage logging (lit "prompt") (lit "text") no_bodies
      ≡ ok s)
    × KeepsPrefix (lit "prompt") (effective_max_request_body_size logging) s.request_body
    × KeepsPrefix (lit "text") (effective_max_response_body_size logging) s.response_body
    × (s.body_s3_key ≡ none)
    × ((str_eq logging.body_storage (lit "postgres") ≡ true) ⊎ (s ≡ no_bodies))
store_body_to_global_storage-KeepsPrefix_example =
    store_body_to_global_storage-KeepsPrefix logging (lit "prompt") (lit "text")

-- Numbers that are all alike, for runs that do not look at a cost.
abbrev no_floats : Floats Unit
no_floats = record {
  nought = tt;
  million = tt;
  float64 = λ z. tt;
  plus = λ x y. tt;
  times = λ x y. tt;
  over = λ x y. tt;
  is_positive = λ x. false;
}

abbrev setup : LogSetup Unit
setup = record {
  logging = logging;
  parsers = λ p. record { parse_response = λ body. none; extract_model = λ body. lit "claude" };
  floats = no_floats;
  pricing = record { pricing = []; aliases = [] };
  decoders = record {
    request = λ s. none;
    response = λ s. none;
    block_start = λ s. none;
    delta_stop = λ s. none;
    lines = λ s. [];
    sha256_hex = λ s. s;
  };
  has_sessions = false;
  has_enricher = false;
  uuid_text = λ n. lit "id";
  date_text = λ n. lit "2026-01-01";
}

-- The organisation has a bucket, and its credentials are not encrypted.
abbrev bucket : CloudStorageRecord
bucket = record {
  provider = lit "s3";
  s3_bucket = some (lit "logs");
  s3_region = none;
  s3_endpoint = none;
  s3_access_key_id_encrypted = some (lit "key");
  s3_secret_access_key_encrypted = some (lit "secret");
  gcs_bucket = none;
  gcs_project_id = none;
  gcs_credentials_json_encrypted = none;
}

abbrev world : ConfigWorld
world = record {
  has_body_storage = true;
  has_store = true;
  ttl = 300;
  now = 1;
  done = 2;
  answer = λ owner. some (some bucket);
  decrypt = λ s. some s;
}

abbrev caches : ConfigCaches
caches = record { users = λ n. none; orgs = λ n. none }

abbrev finished : Finished
finished = record {
  api_key = record {
    id = 3;
    hash = lit "h";
    alias = none;
    user_id = none;
    org_id = some 1;
    deprecated_model_behavior = lit "warn";
  };
  provider_key = record { hash = none; alias = none };
  proxy_key_id = none;
  session_id = none;
  is_claude_code = true;
  provider = anthropic;
  exchange = record {
    request_id = 11;
    requested_at = 20;
    method = lit "POST";
    path = lit "/v1/messages";
    custom_headers = [];
    req_body = lit "prompt";
    status = 200;
    resp_headers = [];
    resp_body = lit "text";
  };
  responded_at = 30;
  response_time = 5;
  assignment = none;
  redirected_from = none;
}

abbrev config : CloudStorageConfig
config = record {
  provider = lit "s3";
  bucket = lit "logs";
  region = lit "us-east-1";
  endpoint = [];
  access_key_id = lit "key";
  secret_access_key = lit "secret";
  gcs_bucket = [];
  gcs_project_id = [];
  gcs_credentials_json = [];
}

abbrev object_key : Str
object_key = lit "id/2026-01-01/id.json.gz"

abbrev log : Logged Unit
log = record {
  row = record (row_of setup finished) {
    bodies = record { request_body = none; response_body = none; body_s3_key = some object_key };
    claude_metadata = none;
  };
  uploaded = some (record {
    owner_id = 1;
    config = config;
    upload = build_body_upload object_key finished.exchange;
  });
  enriched = none;
  caches = record {
    users = λ n. none;
    orgs = update (λ n. none) 1 (some (record { config = some config; fetched_at = 2 }));
  };
}

run : log_request setup world caches finished ≡ ok log
unfolding log_request store_body_to_user_or_org_cloud upload_to choose_target target_of
    get_cloud_storage_config resolve_cloud_config resolve_s3 generate_s3_key stored_after
    claude_metadata_for
run = refl

log_request-IsPrivate_example :
    IsPrivate world caches finished log.uploaded log.row.bodies
    × KeepsError finished.exchange log.row.error_message
log_request-IsPrivate_example = log_request-IsPrivate setup world caches finished log run
