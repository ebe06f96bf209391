-- ===== src/StewardClient/Results/Tests.antt =====
-- Runs of the model of the results reporter, and the theorems at them.
use majordomo_steward.Prelude.{ℕ, true, none, some, List, [], ◌∷◌, Str, lit, ◌≡◌, refl, All, map}
use majordomo_steward.Prelude.Int.{pos}
use majordomo_steward.StewardClient.Results.Rows.{
  ReplayRun, EvalResult, EvalResultScore, replay_run_update,
}
use majordomo_steward.StewardClient.Results.{
  Post, replay_runs, Tables, World, is_accepted, reporter_batch_size, fetch_unsynced_replay_runs,
  mark_replay_runs_synced, flush_replay_runs,
}
use majordomo_steward.StewardClient.Results.EvalResults.{flush_eval_results}
use majordomo_steward.StewardClient.Results.Sent.{
  MarksPosted, flush_eval_results-MarksPosted, IsSettled, flush_replay_runs-IsSettled,
}

abbrev run_with : Str → ℕ → ReplayRun Unit
run_with status updated_at = record {
  id = 4;
  status = status;
  error_message = none;
  started_at = some 1;
  completed_at = none;
  total_requests = none;
  exact_matches = none;
  judge_equivalent = none;
  divergent = none;
  original_total_cost = none;
  replay_total_cost = none;
  original_avg_latency_ms = none;
  replay_avg_latency_ms = none;
  updated_at = updated_at;
  synced_at = none;
}

abbrev result : EvalResult Unit
result = record {
  id = 5;
  eval_run_id = 6;
  source_request_id = 7;
  original_provider = lit "openai";
  original_model = lit "gpt-4o";
  original_cost = tt;
  original_latency_ms = pos 1;
  original_input_tokens = pos 1;
  original_output_tokens = pos 1;
  replay_response = none;
  replay_cost = none;
  replay_latency_ms = none;
  replay_input_tokens = none;
  replay_output_tokens = none;
  error_message = none;
  created_at = 2;
  synced_at = none;
}

abbrev score : EvalResultScore Unit
score = record {
  id = 8;
  eval_result_id = 5;
  evaluator_name = lit "judge";
  score = tt;
  reason = none;
  created_at = 3;
  synced_at = none;
}

abbrev tables : Tables Unit
tables = record {
  replay_runs = run_with (lit "running") 2 ∷ [];
  replay_results = [];
  eval_runs = [];
  eval_results = result ∷ [];
  scores = score ∷ [];
}

-- The run completes at time 3, after it was read and before it is marked at time 9.
abbrev world : World Unit
world = record {
  fetch_ok = true;
  scores_ok = true;
  status = some 200;
  mark_ok = true;
  mark_scores_ok = true;
  meanwhile = λ t. record t { replay_runs = run_with (lit "completed") 3 ∷ [] };
  now = 9;
}

abbrev statuses : List (Post Unit) → List Str
statuses [] = []
statuses (replay_runs (r ∷ runs) ∷ posts) = r.status ∷ []
statuses _ = []

-- The status that is posted is the old one, and the next flush does not find the run.
lost-posted : statuses (flush_replay_runs world tables).0 ≡ lit "running" ∷ []
unfolding flush_replay_runs fetch_unsynced_replay_runs replay_run_update
lost-posted = refl

lost-synced :
    fetch_unsynced_replay_runs reporter_batch_size (flush_replay_runs world tables).1.replay_runs
    ≡ []
unfolding flush_replay_runs fetch_unsynced_replay_runs mark_replay_runs_synced is_accepted
lost-synced = refl

accepted : is_accepted world.status ≡ true
unfolding is_accepted
accepted = refl

flush_eval_results-MarksPosted_example :
    MarksPosted world (world.meanwhile tables) (flush_eval_results world tables)
flush_eval_results-MarksPosted_example = flush_eval_results-MarksPosted world tables

flush_replay_runs-IsSettled_example :
    All
      (IsSettled 9
        (map (λ x. x.id) (fetch_unsynced_replay_runs reporter_batch_size tables.replay_runs)))
      (flush_replay_runs world tables).1.replay_runs
flush_replay_runs-IsSettled_example = flush_replay_runs-IsSettled world tables refl accepted refl
