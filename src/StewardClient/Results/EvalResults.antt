-- ===== src/StewardClient/Results/EvalResults.antt =====
-- flushEvalResults and flushAll of internal/stewardclient/resultsreporter.go: the results of evaluations with
-- their scores, and one round of the reporter.
use majordomo_steward.Prelude.{ℕ, ◌*◌, ◌&&◌, ◌==◌, List, [], ◌∷◌, ◌++◌, map, if◌then◌else◌}
use majordomo_steward.StewardClient.Results.Rows.{
  EvalResult, EvalResultScore, EvalResultPayload, score_spec, eval_result_payload,
}
use majordomo_steward.StewardClient.Results.{
  select, eval_results, Tables, World, Flushed, is_accepted, reporter_batch_size,
  fetch_unsynced_eval_results, fetch_unsynced_eval_result_scores, mark_eval_results_synced,
  mark_eval_result_scores_synced, flush_replay_runs, flush_replay_results, flush_eval_runs,
}

module _ {F : Type 0} where
  -- `scoresByResult[res.ID]`
  abbrev pub scores_by_result : ℕ → List (EvalResultScore F) → List (EvalResultScore F)
  scores_by_result id scores = select (λ s. s.eval_result_id == id) scores

  unfoldable pub payload_of : List (EvalResultScore F) → EvalResult F → EvalResultPayload F
  payload_of scores res = eval_result_payload res (map score_spec (scores_by_result res.id scores))

  -- `syncedScoreIDs`: the scores of each result, in the order of the results.
  unfoldable pub synced_score_ids : List (EvalResultScore F) → List (EvalResult F) → List ℕ
  synced_score_ids scores [] = []
  synced_score_ids scores (res ∷ results) =
      map (λ s. s.id) (scores_by_result res.id scores) ++ synced_score_ids scores results

  -- The two updates after an accepted post; the second is tried whether the first succeeds or not.
  abbrev pub mark_both : World F → List ℕ → List ℕ → Tables F → Tables F
  mark_both w result_ids score_ids t = record t {
    eval_results =
        if is_accepted w.status && w.mark_ok
        then mark_eval_results_synced w.now result_ids t.eval_results
        else t.eval_results;
    scores =
        if is_accepted w.status && w.mark_scores_ok
        then mark_eval_result_scores_synced w.now score_ids t.scores
        else t.scores;
  }

  abbrev pub report_eval_results :
      World F → Tables F → List (EvalResultScore F) → List (EvalResult F) → Flushed F
  report_eval_results w t scores [] = ([], w.meanwhile t)
  report_eval_results w t scores (r ∷ results) =
      if w.scores_ok
      then (
        eval_results (map (payload_of scores) (r ∷ results)) ∷ [],
        mark_both w (map (λ x. x.id) (r ∷ results)) (synced_score_ids scores (r ∷ results))
            (w.meanwhile t),
      )
      else ([], w.meanwhile t)

  unfoldable pub flush_eval_results : World F → Tables F → Flushed F
  flush_eval_results w t =
      if w.fetch_ok
      then report_eval_results w t
          (fetch_unsynced_eval_result_scores (reporter_batch_size * 4) t.scores)
          (fetch_unsynced_eval_results reporter_batch_size t.eval_results)
      else ([], w.meanwhile t)

  -- What one flush adds to the posts of the earlier ones.
  abbrev pub then_flush : (Tables F → Flushed F) → Flushed F → Flushed F
  then_flush flush (posts, t) = let (more, t') = flush t in (posts ++ more, t')

  -- flushAll, with what each of the four flushes meets.
  unfoldable pub flush_all : World F → World F → World F → World F → Tables F → Flushed F
  flush_all w1 w2 w3 w4 t = then_flush (flush_eval_results w4) (
      then_flush (flush_eval_runs w3)
        (then_flush (flush_replay_results w2) (flush_replay_runs w1 t)))
