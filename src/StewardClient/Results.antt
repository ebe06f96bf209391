-- ===== src/StewardClient/Results.antt =====
-- internal/stewardclient/resultsreporter.go: the replays and evaluations that are reported to Butler, over the
-- tables that the queries of internal/repositories/replay.go and eval.go read and write.
pub mod Rows
pub mod EvalResults
pub mod Sent
pub mod Tests
use majordomo_steward.Prelude.{
  ℕ, Bool, true, false, not, ◌&&◌, ◌||◌, ◌==◌, Option, none, some, List, [], ◌∷◌, ◌++◌, map, Str,
  ltb, leb, take, if◌then◌else◌,
}
use majordomo_steward.StewardClient.Results.Rows.{
  ReplayRun, ReplayResult, EvalRun, EvalResult, EvalResultScore, ReplayRunStatusUpdate,
  ReplayResultPayload, EvalRunStatusUpdate, EvalResultPayload, EvalResultScoreSpec,
  replay_run_update, replay_result_payload, eval_run_update, score_spec, eval_result_payload,
}

module _ {A : Type 0} where
  -- ORDER BY a time, and by the place in the table where the times are equal.
  abbrev pub insert_by : (A → ℕ) → A → List A → List A
  insert_by key a [] = a ∷ []
  insert_by key a (b ∷ rows) =
      let rest = insert_by key a rows in if leb (key a) (key b) then a ∷ b ∷ rows else b ∷ rest

  abbrev pub order_by : (A → ℕ) → List A → List A
  order_by key [] = []
  order_by key (a ∷ rows) = insert_by key a (order_by key rows)

  -- WHERE
  abbrev pub select : (A → Bool) → List A → List A
  select test [] = []
  select test (a ∷ rows) = let rest = select test rows in if test a then a ∷ rest else rest

  -- UPDATE … WHERE id = ANY(ids)
  abbrev pub mark : (A → ℕ) → (A → A) → (ℕ → Bool) → List A → List A
  mark id_of set_synced is_marked [] = []
  mark id_of set_synced is_marked (a ∷ rows) =
      (if is_marked (id_of a) then set_synced a else a) ∷ mark id_of set_synced is_marked rows

abbrev pub is_in : List ℕ → ℕ → Bool
is_in [] n = false
is_in (i ∷ ids) n = i == n || is_in ids n

-- synced_at IS NULL
abbrev pub never_synced : Option ℕ → Bool
never_synced none = true
never_synced (some t) = false

-- synced_at IS NULL OR synced_at < updated_at
abbrev pub is_stale : Option ℕ → ℕ → Bool
is_stale none updated_at = true
is_stale (some t) updated_at = ltb t updated_at

abbrev pub reporter_batch_size : ℕ
reporter_batch_size = 500

-- A body that is posted to Butler.
pub data Post (F : Type 0) : Type 0 where
  replay_runs : List (ReplayRunStatusUpdate F) → Post F
  replay_results : List (ReplayResultPayload F) → Post F
  eval_runs : List (EvalRunStatusUpdate F) → Post F
  eval_results : List (EvalResultPayload F) → Post F

pub record Tables (F : Type 0) : Type 0 where
  pub replay_runs : List (ReplayRun F)
  pub replay_results : List (ReplayResult F)
  pub eval_runs : List (EvalRun F)
  pub eval_results : List (EvalResult F)
  pub scores : List (EvalResultScore F)

-- What a flush meets: whether each query and update succeeds, what Butler answers (none where the
-- request fails), what else changes the tables between the query and the update, and the time of the
-- update.
pub record World (F : Type 0) : Type 0 where
  pub fetch_ok : Bool
  pub scores_ok : Bool
  pub status : Option ℕ
  pub mark_ok : Bool
  pub mark_scores_ok : Bool
  pub meanwhile : Tables F → Tables F
  pub now : ℕ

-- The status test of `post`.
unfoldable pub is_accepted : Option ℕ → Bool
is_accepted none = false
is_accepted (some code) = not (ltb code 200 || leb 300 code)

-- What is posted, and the tables after it.
abbrev pub Flushed : Type 0 → Type 0
Flushed F = List (Post F) × Tables F

module _ {F : Type 0} where
  unfoldable pub fetch_unsynced_replay_runs : ℕ → List (ReplayRun F) → List (ReplayRun F)
  fetch_unsynced_replay_runs limit rows =
      take limit
        (order_by (λ r. r.updated_at) (select (λ r. is_stale r.synced_at r.updated_at) rows))

  unfoldable pub mark_replay_runs_synced : ℕ → List ℕ → List (ReplayRun F) → List (ReplayRun F)
  mark_replay_runs_synced now ids rows =
      mark (λ r. r.id) (λ r. record r { synced_at = some now }) (is_in ids) rows

  unfoldable pub fetch_unsynced_replay_results : ℕ → List (ReplayResult F) → List (ReplayResult F)
  fetch_unsynced_replay_results limit rows =
      take limit (order_by (λ r. r.created_at) (select (λ r. never_synced r.synced_at) rows))

  unfoldable pub mark_replay_results_synced :
      ℕ → List ℕ → List (ReplayResult F) → List (ReplayResult F)
  mark_replay_results_synced now ids rows =
      mark (λ r. r.id) (λ r. record r { synced_at = some now }) (is_in ids) rows

  unfoldable pub fetch_unsynced_eval_runs : ℕ → List (EvalRun F) → List (EvalRun F)
  fetch_unsynced_eval_runs limit rows =
      take limit
        (order_by (λ r. r.updated_at) (select (λ r. is_stale r.synced_at r.updated_at) rows))

  unfoldable pub mark_eval_runs_synced : ℕ → List ℕ → List (EvalRun F) → List (EvalRun F)
  mark_eval_runs_synced now ids rows =
      mark (λ r. r.id) (λ r. record r { synced_at = some now }) (is_in ids) rows

  unfoldable pub fetch_unsynced_eval_results : ℕ → List (EvalResult F) → List (EvalResult F)
  fetch_unsynced_eval_results limit rows =
      take limit (order_by (λ r. r.created_at) (select (λ r. never_synced r.synced_at) rows))

  unfoldable pub mark_eval_results_synced : ℕ → List ℕ → List (EvalResult F) → List (EvalResult F)
  mark_eval_results_synced now ids rows =
      mark (λ r. r.id) (λ r. record r { synced_at = some now }) (is_in ids) rows

  unfoldable pub fetch_unsynced_eval_result_scores :
      ℕ → List (EvalResultScore F) → List (EvalResultScore F)
  fetch_unsynced_eval_result_scores limit rows =
      take limit (order_by (λ r. r.created_at) (select (λ r. never_synced r.synced_at) rows))

  unfoldable pub mark_eval_result_scores_synced :
      ℕ → List ℕ → List (EvalResultScore F) → List (EvalResultScore F)
  mark_eval_result_scores_synced now ids rows =
      mark (λ r. r.id) (λ r. record r { synced_at = some now }) (is_in ids) rows

  -- The tables after the post: marked only if Butler accepted it and the update succeeds.
  abbrev pub after_post : World F → (Tables F → Tables F) → Tables F → Tables F
  after_post w marked t =
      if is_accepted w.status
      then (if w.mark_ok then marked (w.meanwhile t) else w.meanwhile t)
      else w.meanwhile t

  abbrev pub report_replay_runs : World F → Tables F → List (ReplayRun F) → Flushed F
  report_replay_runs w t [] = ([], w.meanwhile t)
  report_replay_runs w t (r ∷ runs) = (
    replay_runs (map replay_run_update (r ∷ runs)) ∷ [],
    after_post w
        (λ u. record u {
          replay_runs = mark_replay_runs_synced w.now (map (λ x. x.id) (r ∷ runs)) u.replay_runs;
        })
        t,
  )

  unfoldable pub flush_replay_runs : World F → Tables F → Flushed F
  flush_replay_runs w t =
      if w.fetch_ok
      then report_replay_runs w t (fetch_unsynced_replay_runs reporter_batch_size t.replay_runs)
      else ([], w.meanwhile t)

  abbrev pub report_replay_results : World F → Tables F → List (ReplayResult F) → Flushed F
  report_replay_results w t [] = ([], w.meanwhile t)
  report_replay_results w t (r ∷ results) = (
    replay_results (map replay_result_payload (r ∷ results)) ∷ [],
    after_post w
        (λ u. record u {
          replay_results =
              mark_replay_results_synced w.now (map (λ x. x.id) (r ∷ results)) u.replay_results;
        })
        t,
  )

  unfoldable pub flush_replay_results : World F → Tables F → Flushed F
  flush_replay_results w t =
      if w.fetch_ok
      then report_replay_results w t
          (fetch_unsynced_replay_results reporter_batch_size t.replay_results)
      else ([], w.meanwhile t)

  abbrev pub report_eval_runs : World F → Tables F → List (EvalRun F) → Flushed F
  report_eval_runs w t [] = ([], w.meanwhile t)
  report_eval_runs w t (r ∷ runs) = (
    eval_runs (map eval_run_update (r ∷ runs)) ∷ [],
    after_post w
        (λ u. record u {
          eval_runs = mark_eval_runs_synced w.now (map (λ x. x.id) (r ∷ runs)) u.eval_runs;
        })
        t,
  )

  unfoldable pub flush_eval_runs : World F → Tables F → Flushed F
  flush_eval_runs w t =
      if w.fetch_ok
      then report_eval_runs w t (fetch_unsynced_eval_runs reporter_batch_size t.eval_runs)
      else ([], w.meanwhile t)
