-- ===== src/StewardClient/Results/Rows.antt =====
-- The rows of replays and evaluations that internal/stewardclient/resultsreporter.go reports, with the fields
-- that it reads (internal/models/replay.go and eval.go), and its wire formats. `F` stands for float64, and
-- times are numbers.
use majordomo_steward.Prelude.{ℕ, Bool, Option, List, Str}
use majordomo_steward.Prelude.Int.{ℤ}

-- models.ReplayRun
pub record ReplayRun (F : Type 0) : Type 0 where
  pub id : ℕ
  pub status : Str
  pub error_message : Option Str
  pub started_at : Option ℕ
  pub completed_at : Option ℕ
  pub total_requests : Option ℤ
  pub exact_matches : Option ℤ
  pub judge_equivalent : Option ℤ
  pub divergent : Option ℤ
  pub original_total_cost : Option F
  pub replay_total_cost : Option F
  pub original_avg_latency_ms : Option ℤ
  pub replay_avg_latency_ms : Option ℤ
  pub updated_at : ℕ
  pub synced_at : Option ℕ

-- models.ReplayResult
pub record ReplayResult (F : Type 0) : Type 0 where
  pub id : ℕ
  pub replay_run_id : ℕ
  pub source_request_id : ℕ
  pub original_provider : Str
  pub original_model : Str
  pub original_cost : F
  pub original_latency_ms : ℤ
  pub original_input_tokens : ℤ
  pub original_output_tokens : ℤ
  pub replay_response : Option Str
  pub replay_cost : Option F
  pub replay_latency_ms : Option ℤ
  pub replay_input_tokens : Option ℤ
  pub replay_output_tokens : Option ℤ
  pub exact_match : Option Bool
  pub judge_equivalent : Option Bool
  pub judge_reason : Option Str
  pub error_message : Option Str
  pub created_at : ℕ
  pub synced_at : Option ℕ

-- models.EvalRun
pub record EvalRun (F : Type 0) : Type 0 where
  pub id : ℕ
  pub status : Str
  pub error_message : Option Str
  pub started_at : Option ℕ
  pub completed_at : Option ℕ
  pub total_requests : Option ℤ
  pub successful_requests : Option ℤ
  pub failed_requests : Option ℤ
  pub original_total_cost : Option F
  pub replay_total_cost : Option F
  pub judge_total_cost : Option F
  pub original_avg_latency_ms : Option ℤ
  pub replay_avg_latency_ms : Option ℤ
  pub evaluator_summary : Str
  pub updated_at : ℕ
  pub synced_at : Option ℕ

-- models.EvalResult
pub record EvalResult (F : Type 0) : Type 0 where
  pub id : ℕ
  pub eval_run_id : ℕ
  pub source_request_id : ℕ
  pub original_provider : Str
  pub original_model : Str
  pub original_cost : F
  pub original_latency_ms : ℤ
  pub original_input_tokens : ℤ
  pub original_output_tokens : ℤ
  pub replay_response : Option Str
  pub replay_cost : Option F
  pub replay_latency_ms : Option ℤ
  pub replay_input_tokens : Option ℤ
  pub replay_output_tokens : Option ℤ
  pub error_message : Option Str
  pub created_at : ℕ
  pub synced_at : Option ℕ

-- models.EvalResultScore
pub record EvalResultScore (F : Type 0) : Type 0 where
  pub id : ℕ
  pub eval_result_id : ℕ
  pub evaluator_name : Str
  pub score : F
  pub reason : Option Str
  pub created_at : ℕ
  pub synced_at : Option ℕ

pub record ReplayRunStatusUpdate (F : Type 0) : Type 0 where
  pub id : ℕ
  pub status : Str
  pub error_message : Option Str
  pub started_at : Option ℕ
  pub completed_at : Option ℕ
  pub total_requests : Option ℤ
  pub exact_matches : Option ℤ
  pub judge_equivalent : Option ℤ
  pub divergent : Option ℤ
  pub original_total_cost : Option F
  pub replay_total_cost : Option F
  pub original_avg_latency_ms : Option ℤ
  pub replay_avg_latency_ms : Option ℤ

pub record ReplayResultPayload (F : Type 0) : Type 0 where
  pub id : ℕ
  pub replay_run_id : ℕ
  pub source_request_id : ℕ
  pub original_provider : Str
  pub original_model : Str
  pub original_cost : F
  pub original_latency_ms : ℤ
  pub original_input_tokens : ℤ
  pub original_output_tokens : ℤ
  pub replay_response : Option Str
  pub replay_cost : Option F
  pub replay_latency_ms : Option ℤ
  pub replay_input_tokens : Option ℤ
  pub replay_output_tokens : Option ℤ
  pub exact_match : Option Bool
  pub judge_equivalent : Option Bool
  pub judge_reason : Option Str
  pub error_message : Option Str
  pub created_at : ℕ

pub record EvalRunStatusUpdate (F : Type 0) : Type 0 where
  pub id : ℕ
  pub status : Str
  pub error_message : Option Str
  pub started_at : Option ℕ
  pub completed_at : Option ℕ
  pub total_requests : Option ℤ
  pub successful_requests : Option ℤ
  pub failed_requests : Option ℤ
  pub original_total_cost : Option F
  pub replay_total_cost : Option F
  pub judge_total_cost : Option F
  pub original_avg_latency_ms : Option ℤ
  pub replay_avg_latency_ms : Option ℤ
  pub evaluator_summary : Str

pub record EvalResultScoreSpec (F : Type 0) : Type 0 where
  pub id : ℕ
  pub evaluator_name : Str
  pub score : F
  pub reason : Option Str
  pub created_at : ℕ

pub record EvalResultPayload (F : Type 0) : Type 0 where
  pub id : ℕ
  pub eval_run_id : ℕ
  pub source_request_id : ℕ
  pub original_provider : Str
  pub original_model : Str
  pub original_cost : F
  pub original_latency_ms : ℤ
  pub original_input_tokens : ℤ
  pub original_output_tokens : ℤ
  pub replay_response : Option Str
  pub replay_cost : Option F
  pub replay_latency_ms : Option ℤ
  pub replay_input_tokens : Option ℤ
  pub replay_output_tokens : Option ℤ
  pub error_message : Option Str
  pub created_at : ℕ
  pub scores : List (EvalResultScoreSpec F)

module _ {F : Type 0} where
  -- The bodies of the loops over the rows.
  unfoldable pub replay_run_update : ReplayRun F → ReplayRunStatusUpdate F
  replay_run_update run = record {
    id = run.id;
    status = run.status;
    error_message = run.error_message;
    started_at = run.started_at;
    completed_at = run.completed_at;
    total_requests = run.total_requests;
    exact_matches = run.exact_matches;
    judge_equivalent = run.judge_equivalent;
    divergent = run.divergent;
    original_total_cost = run.original_total_cost;
    replay_total_cost = run.replay_total_cost;
    original_avg_latency_ms = run.original_avg_latency_ms;
    replay_avg_latency_ms = run.replay_avg_latency_ms;
  }

  unfoldable pub replay_result_payload : ReplayResult F → ReplayResultPayload F
  replay_result_payload res = record {
    id = res.id;
    replay_run_id = res.replay_run_id;
    source_request_id = res.source_request_id;
    original_provider = res.original_provider;
    original_model = res.original_model;
    original_cost = res.original_cost;
    original_latency_ms = res.original_latency_ms;
    original_input_tokens = res.original_input_tokens;
    original_output_tokens = res.original_output_tokens;
    replay_response = res.replay_response;
    replay_cost = res.replay_cost;
    replay_latency_ms = res.replay_latency_ms;
    replay_input_tokens = res.replay_input_tokens;
    replay_output_tokens = res.replay_output_tokens;
    exact_match = res.exact_match;
    judge_equivalent = res.judge_equivalent;
    judge_reason = res.judge_reason;
    error_message = res.error_message;
    created_at = res.created_at;
  }

  unfoldable pub eval_run_update : EvalRun F → EvalRunStatusUpdate F
  eval_run_update run = record {
    id = run.id;
    status = run.status;
    error_message = run.error_message;
    started_at = run.started_at;
    completed_at = run.completed_at;
    total_requests = run.total_requests;
    successful_requests = run.successful_requests;
    failed_requests = run.failed_requests;
    original_total_cost = run.original_total_cost;
    replay_total_cost = run.replay_total_cost;
    judge_total_cost = run.judge_total_cost;
    original_avg_latency_ms = run.original_avg_latency_ms;
    replay_avg_latency_ms = run.replay_avg_latency_ms;
    evaluator_summary = run.evaluator_summary;
  }

  unfoldable pub score_spec : EvalResultScore F → EvalResultScoreSpec F
  score_spec s = record {
    id = s.id;
    evaluator_name = s.evaluator_name;
    score = s.score;
    reason = s.reason;
    created_at = s.created_at;
  }

  -- A result with the scores that are nested in it.
  unfoldable pub eval_result_payload :
      EvalResult F → List (EvalResultScoreSpec F) → EvalResultPayload F
  eval_result_payload res scores = record {
    id = res.id;
    eval_run_id = res.eval_run_id;
    source_request_id = res.source_request_id;
    original_provider = res.original_provider;
    original_model = res.original_model;
    original_cost = res.original_cost;
    original_latency_ms = res.original_latency_ms;
    original_input_tokens = res.original_input_tokens;
    original_output_tokens = res.original_output_tokens;
    replay_response = res.replay_response;
    replay_cost = res.replay_cost;
    replay_latency_ms = res.replay_latency_ms;
    replay_input_tokens = res.replay_input_tokens;
    replay_output_tokens = res.replay_output_tokens;
    error_message = res.error_message;
    created_at = res.created_at;
    scores = scores;
  }
