-- ===== src/StewardClient/Results/Sent.antt =====
-- Which rows of replays and evaluations are marked as synced.
use mathlib.Core.List.{append-nil}
use majordomo_steward.Prelude.{
  ℕ, ◌*◌, ◌==◌, ==_iff, leb, In, here, there, subst, arith, Bool-cases, Bool, true, false, ◌&&◌,
  Option, none, some, List, [], ◌∷◌, ◌++◌, map, All, ltb, ◌≡◌, refl, ap, ◌⊎◌, inl, inr,
  if◌then◌else◌,
}
use majordomo_steward.StewardClient.Results.Rows.{
  ReplayRun, EvalResult, EvalResultScore, EvalResultPayload, EvalResultScoreSpec, score_spec,
  eval_result_payload,
}
use majordomo_steward.StewardClient.Results.{
  mark, is_in, is_stale, Post, replay_runs, replay_results, eval_runs, eval_results, Tables, World,
  Flushed, is_accepted, reporter_batch_size, fetch_unsynced_eval_results, report_replay_runs,
  fetch_unsynced_eval_result_scores, mark_eval_results_synced, mark_eval_result_scores_synced,
  fetch_unsynced_replay_runs, mark_replay_runs_synced, flush_replay_runs,
}
use majordomo_steward.StewardClient.Results.EvalResults.{
  scores_by_result, payload_of, synced_score_ids, mark_both, report_eval_results,
  flush_eval_results,
}

-- A status from 200 to 299.
abbrev pub is_2xx : Option ℕ → Bool
is_2xx none = false
is_2xx (some status) = leb 200 status && leb status 299

is_accepted_lem : (status : Option ℕ) → is_accepted status ≡ is_2xx status
unfolding is_accepted
is_accepted_lem none = refl
is_accepted_lem (some status) = ground arith

if_both : {A : Type 0} (b : Bool) (x : A) → (if b then x else x) ≡ x
if_both true x = refl
if_both false x = refl

-- The rows after an update of those with some identifiers: each of these rows is changed, and every other
-- row is as it was.
abbrev pub AreMarked : {A : Type 0} → (A → ℕ) → (A → A) → List ℕ → List A → List A → Type 0
AreMarked id_of change ids [] [] = Unit
AreMarked id_of change ids [] (s ∷ after) = ⊥
AreMarked id_of change ids (r ∷ before) [] = ⊥
AreMarked id_of change ids (r ∷ before) (s ∷ after) =
    ((In (id_of r) ids × (s ≡ change r)) ⊎ ((¬ In (id_of r) ids) × (s ≡ r)))
    × AreMarked id_of change ids before after

is_in_sound : (ids : List ℕ) (n : ℕ) → is_in ids n ≡ true → In n ids
is_in_sound [] n h = cc
is_in_sound (i ∷ ids) n h = elim (Bool-cases (i == n)) [
  | inl same ↦ subst (λ m. In m (i ∷ ids)) ((==_iff i n).0 same) here
  | inr other ↦ there (is_in_sound ids n (cc (rw other at h)))
]

is_in_complete : (ids : List ℕ) (n : ℕ) → In n ids → is_in ids n ≡ true
is_in_complete [] n p = elim p [ ]
is_in_complete (i ∷ ids) n here = ground arith
is_in_complete (i ∷ ids) n (there p) = ground (arith, is_in_complete ids n p)

mark-AreMarked :
    {A : Type 0} (id_of : A → ℕ) (change : A → A) (ids : List ℕ) (rows : List A)
    → AreMarked id_of change ids rows (mark id_of change (is_in ids) rows)
mark-AreMarked id_of change ids [] = tt
mark-AreMarked id_of change ids (r ∷ rows) = (
  elim (Bool-cases (is_in ids (id_of r))) [
    | inl at ↦ rw at (inl (is_in_sound ids (id_of r) at, refl))
    | inr off ↦ rw off (inr ((λ p. cc (is_in_complete ids (id_of r) p, off)), refl))
  ],
  mark-AreMarked id_of change ids rows,
)

none-AreMarked :
    {A : Type 0} (id_of : A → ℕ) (change : A → A) (rows : List A)
    → AreMarked id_of change [] rows rows
none-AreMarked id_of change [] = tt
none-AreMarked id_of change (r ∷ rows) =
    (inr ((λ p. elim p [ ]), refl), none-AreMarked id_of change rows)

if_true :
    {A : Type 0} (P : A → Type 0) (b : Bool) (x y : A) → b ≡ true → P x → P (if b then x else y)
if_true P true x y h p = p
if_true P false x y h p = absurd (cc)

module _ {F : Type 0} where
  -- The results whose payloads are posted, and the scores that are nested in them.
  abbrev pub result_ids_in : List (EvalResultPayload F) → List ℕ
  result_ids_in [] = []
  result_ids_in (p ∷ payloads) = p.id ∷ result_ids_in payloads

  abbrev pub spec_ids_in : List (EvalResultScoreSpec F) → List ℕ
  spec_ids_in [] = []
  spec_ids_in (s ∷ specs) = s.id ∷ spec_ids_in specs

  abbrev pub score_ids_in : List (EvalResultPayload F) → List ℕ
  score_ids_in [] = []
  score_ids_in (p ∷ payloads) = spec_ids_in p.scores ++ score_ids_in payloads

  abbrev pub posted_results : List (Post F) → List (EvalResultPayload F)
  posted_results [] = []
  posted_results (eval_results payloads ∷ posts) = payloads ++ posted_results posts
  posted_results (replay_runs x ∷ posts) = posted_results posts
  posted_results (replay_results x ∷ posts) = posted_results posts
  posted_results (eval_runs x ∷ posts) = posted_results posts

  result_ids-map :
      (scores : List (EvalResultScore F)) (results : List (EvalResult F))
      → result_ids_in (map (payload_of scores) results) ≡ map (λ x. x.id) results
  unfolding payload_of eval_result_payload
  result_ids-map scores [] = refl
  result_ids-map scores (r ∷ results) = ap (λ l. r.id ∷ l) (result_ids-map scores results)

  spec_ids-map :
      (scores : List (EvalResultScore F))
      → spec_ids_in (map score_spec scores) ≡ map (λ s. s.id) scores
  unfolding score_spec
  spec_ids-map [] = refl
  spec_ids-map (s ∷ scores) = ap (λ l. s.id ∷ l) (spec_ids-map scores)

  score_ids-map :
      (scores : List (EvalResultScore F)) (results : List (EvalResult F))
      → score_ids_in (map (payload_of scores) results) ≡ synced_score_ids scores results
  unfolding payload_of eval_result_payload synced_score_ids
  score_ids-map scores [] = refl
  score_ids-map scores (r ∷ results) =
      rw (spec_ids-map (scores_by_result r.id scores), score_ids-map scores results) refl

  -- What the two updates of a flush leave, on the payloads that it posted.
  abbrev pub MarksPosted : World F → Tables F → Flushed F → Type 0
  MarksPosted w t (posts, t') =
      AreMarked (λ r. r.id) (λ r. record r { synced_at = some w.now })
        (if is_2xx w.status && w.mark_ok then result_ids_in (posted_results posts) else [])
        t.eval_results t'.eval_results
      × AreMarked (λ s. s.id) (λ s. record s { synced_at = some w.now })
          (if is_2xx w.status && w.mark_scores_ok then score_ids_in (posted_results posts) else [])
          t.scores t'.scores

  results-AreMarked :
      (w : World F) (b : Bool) (ids : List ℕ) (rows : List (EvalResult F))
      → AreMarked
          (λ r. r.id)
          (λ r. record r { synced_at = some w.now })
          (if b then ids else [])
          rows
          (if b then mark_eval_results_synced w.now ids rows else rows)
  unfolding mark_eval_results_synced
  results-AreMarked w true ids rows = mark-AreMarked (λ r. r.id) _ ids rows
  results-AreMarked w false ids rows = none-AreMarked (λ r. r.id) _ rows

  scores-AreMarked :
      (w : World F) (b : Bool) (ids : List ℕ) (rows : List (EvalResultScore F))
      → AreMarked
          (λ s. s.id)
          (λ s. record s { synced_at = some w.now })
          (if b then ids else [])
          rows
          (if b then mark_eval_result_scores_synced w.now ids rows else rows)
  unfolding mark_eval_result_scores_synced
  scores-AreMarked w true ids rows = mark-AreMarked (λ s. s.id) _ ids rows
  scores-AreMarked w false ids rows = none-AreMarked (λ s. s.id) _ rows

  nothing-MarksPosted : (w : World F) (t : Tables F) → MarksPosted w t ([], t)
  nothing-MarksPosted w t = (
    rw (if_both {A = List ℕ} (is_2xx w.status && w.mark_ok) [])
        (none-AreMarked (λ r. r.id) _ t.eval_results),
    rw (if_both {A = List ℕ} (is_2xx w.status && w.mark_scores_ok) [])
        (none-AreMarked (λ s. s.id) _ t.scores),
  )

  posted-MarksPosted :
      (w : World F) (t : Tables F) (scores : List (EvalResultScore F))
      (results : List (EvalResult F))
      → MarksPosted w t (
        eval_results (map (payload_of scores) results) ∷ [],
        mark_both w (map (λ x. x.id) results) (synced_score_ids scores results) t,
      )
  posted-MarksPosted w t scores results =
      rw
        (
          is_accepted_lem w.status,
          append-nil (map (payload_of scores) results),
          result_ids-map scores results,
          score_ids-map scores results,
        )
        (
          results-AreMarked w (is_2xx w.status && w.mark_ok) (map (λ x. x.id) results)
              t.eval_results,
          scores-AreMarked w (is_2xx w.status && w.mark_scores_ok) (synced_score_ids scores results)
              t.scores,
        )

  report-MarksPosted :
      (w : World F) (t : Tables F) (scores : List (EvalResultScore F))
      (results : List (EvalResult F))
      → MarksPosted w (w.meanwhile t) (report_eval_results w t scores results)
  report-MarksPosted w t scores [] = nothing-MarksPosted w (w.meanwhile t)
  report-MarksPosted w t scores (r ∷ results) = on_scores w.scores_ok
    where
      on_scores :
          (b : Bool)
          → MarksPosted w (w.meanwhile t) (
              if b
              then (
                eval_results (map (payload_of scores) (r ∷ results)) ∷ [],
                mark_both w
                    (map (λ x. x.id) (r ∷ results))
                    (synced_score_ids scores (r ∷ results))
                    (w.meanwhile t),
              )
              else ([], w.meanwhile t))
      on_scores false = nothing-MarksPosted w (w.meanwhile t)
      on_scores true = posted-MarksPosted w (w.meanwhile t) scores (r ∷ results)

  -- For every flush of evaluation results, whatever fails and whatever else changes the tables in
  -- between: in each of the two tables the flush sets the time of synchronisation of exactly the rows whose
  -- identifier it posted, the scores as part of the payloads of results, and leaves every other row as it
  -- is; and it marks none unless Butler answered the post with a status from 200 to 299 and the table's
  -- update succeeds.
  pub flush_eval_results-MarksPosted :
      (w : World F) (t : Tables F) → MarksPosted w (w.meanwhile t) (flush_eval_results w t)
  unfolding flush_eval_results
  flush_eval_results-MarksPosted w t = on_fetch w.fetch_ok
    where
      on_fetch :
          (b : Bool)
          → MarksPosted w (w.meanwhile t) (
              if b
              then report_eval_results w t
                  (fetch_unsynced_eval_result_scores (reporter_batch_size * 4) t.scores)
                  (fetch_unsynced_eval_results reporter_batch_size t.eval_results)
              else ([], w.meanwhile t))
      on_fetch true = report-MarksPosted w t _ _
      on_fetch false = nothing-MarksPosted w (w.meanwhile t)

  -- A row that the posted page does not have, or one that is found again exactly if it was updated after
  -- the time.
  abbrev pub IsSettled : ℕ → List ℕ → ReplayRun F → Type 0
  IsSettled now ids r =
      (is_in ids r.id ≡ false) ⊎ (is_stale r.synced_at r.updated_at ≡ ltb now r.updated_at)

  mark-IsSettled :
      (now : ℕ) (ids : List ℕ) (rows : List (ReplayRun F))
      → All (IsSettled now ids) (mark_replay_runs_synced now ids rows)
  unfolding mark_replay_runs_synced
  mark-IsSettled now ids [] = tt
  mark-IsSettled now ids (r ∷ rows) = (on_row (is_in ids r.id) refl, mark-IsSettled now ids rows)
    where
      on_row :
          (b : Bool)
          → is_in ids r.id ≡ b
          → IsSettled now ids (if b then record r { synced_at = some now } else r)
      on_row true h = inr refl
      on_row false h = inl h

  none_posted : (now : ℕ) (rows : List (ReplayRun F)) → All (IsSettled now []) rows
  none_posted now [] = tt
  none_posted now (r ∷ rows) = (inl refl, none_posted now rows)

  -- When a flush of replay runs reads a page, Butler accepts it and the update succeeds, every row of
  -- the table with the identifier of a posted run counts as synced if it was last updated no later
  -- than the update, even if it was updated after the page was read and its new status was not posted.
  pub flush_replay_runs-IsSettled :
      (w : World F) (t : Tables F)
      → w.fetch_ok ≡ true
      → is_accepted w.status ≡ true
      → w.mark_ok ≡ true
      → All
          (IsSettled w.now
            (map (λ x. x.id) (fetch_unsynced_replay_runs reporter_batch_size t.replay_runs)))
          (flush_replay_runs w t).1.replay_runs
  unfolding flush_replay_runs
  flush_replay_runs-IsSettled w t f a m =
      on_page (fetch_unsynced_replay_runs reporter_batch_size t.replay_runs)
    where
      on_page :
          (page : List (ReplayRun F))
          → All
              (IsSettled w.now (map (λ x. x.id) page))
              (if w.fetch_ok
                then report_replay_runs w t page
                else ([], w.meanwhile t)).1.replay_runs
      on_page [] =
          if_true (λ (q : Flushed F). All (IsSettled w.now []) q.1.replay_runs) w.fetch_ok _ _ f
            (none_posted w.now (w.meanwhile t).replay_runs)
      on_page (r ∷ page) =
          if_true
            (λ (q : Flushed F). All (IsSettled w.now (map (λ x. x.id) (r ∷ page))) q.1.replay_runs)
            w.fetch_ok _ _ f
            (if_true
              (λ (u : Tables F). All (IsSettled w.now (map (λ x. x.id) (r ∷ page))) u.replay_runs)
              (is_accepted w.status) _ _ a
              (if_true
                (λ (u : Tables F). All (IsSettled w.now (map (λ x. x.id) (r ∷ page))) u.replay_runs)
                w.mark_ok _ _ m
                (mark-IsSettled w.now (map (λ x. x.id) (r ∷ page)) (w.meanwhile t).replay_runs)))
