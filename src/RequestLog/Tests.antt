-- ===== src/RequestLog/Tests.antt =====
-- Runs of the model of the request log's writer, and the theorems at them.
use majordomo_steward.Prelude.{
  ℕ, true, false, none, some, List, [], ◌∷◌, Str, lit, ◌≡◌, refl, length, map, ◌≤◌, arith,
}
use majordomo_steward.Prelude.Int.{pos}
use majordomo_steward.Proxy.Bodies.{no_bodies}
use majordomo_steward.Proxy.RequestLog.{RequestLog}
use majordomo_steward.RequestLog.ActiveKeys.{key_rows, get_active_keys, fetch_active_keys}
use majordomo_steward.RequestLog.Hll.{Sketches}
use majordomo_steward.RequestLog.Writer.{
  Answers, Inserted, Writer, Step, write_request, receive, close_done, stop_hlls, close_db, leave,
  step, run, write_log, after_insert, write_request_log,
}
use majordomo_steward.RequestLog.Writer.Queue.{run-Bounded}

-- A sketch that keeps all values.
abbrev all_values : Sketches (List Str)
all_values = record {
  new_sketch = [];
  insert = λ v s. v ∷ s;
  marshal = λ s. some [];
  unmarshal = λ s. some [];
  estimate = length;
}

abbrev log_with : ℕ → RequestLog Unit
log_with id = record {
  id = id;
  majordomo_api_key_id = 3;
  user_id = none;
  org_id = none;
  proxy_key_id = none;
  provider_api_key_hash = none;
  provider_api_key_alias = none;
  provider = lit "openai";
  model = lit "gpt-4o";
  request_path = lit "/v1/chat/completions";
  request_method = lit "POST";
  requested_at = 1;
  responded_at = 2;
  response_time_ms = 1;
  input_tokens = pos 1;
  output_tokens = pos 1;
  cached_tokens = pos 0;
  cache_creation_tokens = pos 0;
  cost = record { input_cost = tt; output_cost = tt; total_cost = tt; model_alias_found = true };
  status_code = 200;
  error_message = none;
  raw_metadata = (lit "team", lit "blue") ∷ (lit "env", lit "prod") ∷ [];
  bodies = no_bodies;
  experiment_id = none;
  experiment_arm_id = none;
  original_model = none;
  deprecated_model_redirected = false;
  claude_metadata = none;
}

-- The key "env" is indexed, and the database takes everything.
abbrev answers : Answers
answers = record {
  now = 1;
  done = 2;
  active = key_rows (lit "env" ∷ []) true;
  insert_ok = true;
  register_ok = λ k. true;
  detail_ok = true;
  stats_ok = true;
}

abbrev new_writer : Writer Unit (List Str)
new_writer = record {
  log_chan = [];
  stores = record {
    cache = λ id. none;
    hlls = [];
    tables = record {
      requests = [];
      metadata_keys = [];
      details = [];
      stats = [];
      hll_updates = [];
    };
  };
  is_done = false;
  is_stopped = false;
  is_db_closed = false;
  is_returned = false;
  is_panicked = false;
}

-- Two requests, of which one is written before the writer is closed and one after.
abbrev steps : List (Step Unit)
steps =
    write_request (log_with 1)
    ∷ write_request (log_with 2)
    ∷ receive answers
    ∷ close_done
    ∷ leave
    ∷ stop_hlls (λ key. true)
    ∷ receive answers
    ∷ close_db
    ∷ leave
    ∷ []

run-rows :
    map
      (λ (r : Inserted Unit). r.indexed_metadata)
      (run all_values 60 steps new_writer).stores.tables.requests
    ≡ ((lit "env", lit "prod") ∷ []) ∷ ((lit "env", lit "prod") ∷ []) ∷ []
unfolding run step write_request_log write_log after_insert get_active_keys fetch_active_keys
run-rows = refl

-- The database is closed before the write loop has received a log that waits.
abbrev closed_writer : Writer Unit (List Str)
closed_writer = record new_writer {
  log_chan = log_with 1 ∷ [];
  is_done = true;
  is_stopped = true;
  is_db_closed = true;
}

-- A second Close.
run-panics :
    (run all_values 60
      (close_done ∷ close_done ∷ write_request (log_with 1) ∷ [])
      new_writer).is_panicked
    ≡ true
unfolding run step
run-panics = refl

run-Bounded_example : length (run all_values 60 steps new_writer).log_chan ≤ 1000
run-Bounded_example = run-Bounded all_values 60 steps new_writer (omega arith)
