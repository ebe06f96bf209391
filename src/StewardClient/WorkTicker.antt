-- ===== src/StewardClient/WorkTicker.antt =====
-- internal/stewardclient/workticker.go: one tick of the work poller. What the syncers, the executor
-- and Butler do is not under this model: a world state `W` and functions on it stand for them.
pub mod Settled
use majordomo_steward.Prelude.{
  ℕ, ◌+◌, Bool, true, false, not, Option, none, some, List, [], ◌∷◌, ◌++◌, ◌==◌, if◌then◌else◌,
  length,
}

-- The job types, and any other text.
pub data JobType : Type 0 where
  sync_api_keys : JobType
  sync_cloud_storage : JobType
  sync_provider_keys : JobType
  sync_experiments : JobType
  replay : JobType
  eval : JobType
  other_job : ℕ → JobType

-- workItem: an identifier is a number.
pub record WorkItem : Type 0 where
  pub job_id : ℕ
  pub org_id : ℕ
  pub job_type : JobType
  pub run_id : Option ℕ

-- Why dispatch fails.
pub data WorkError : Type 0 where
  not_configured : JobType → WorkError
  missing_run_id : JobType → WorkError
  unknown_job_type : ℕ → WorkError
  job_failed : ℕ → WorkError

-- A call that changes the world and returns an error or nil.
abbrev pub Job : Type 0 → Type 0
Job W = W → W × Option WorkError

-- The ticker's syncers, nil where the capability is not configured, its executor, and what decides
-- whether a request goes out: whether the five minutes of the tick's context are over in a world, which
-- all items of a tick share, and whether the request for the result of a job is sent without an error.
pub record Workers (W : Type 0) : Type 0 where
  pub key_sync : Option (Job W)
  pub cloud_sync : Option (Job W)
  pub provider_sync : Option (Job W)
  pub experiment_sync : Option (Job W)
  pub execute_replay : ℕ → ℕ → Job W
  pub execute_eval : ℕ → ℕ → Job W
  pub is_expired : W → Bool
  pub connects : W → ℕ → Bool

module _ {W : Type 0} (workers : Workers W) where
  -- `if wt.xSync == nil { return … }; return wt.xSync.Sync(ctx, logger)`
  abbrev pub sync_with : JobType → Option (Job W) → Job W
  sync_with job none w = (w, some (not_configured job))
  sync_with job (some sync) w = sync w

  -- `if item.RunID == nil { return … }; return wt.executor.Execute…`
  abbrev pub execute_with : JobType → (ℕ → Job W) → Option ℕ → Job W
  execute_with job execute none w = (w, some (missing_run_id job))
  execute_with job execute (some run) w = execute run w

  abbrev pub dispatch_type : JobType → WorkItem → Job W
  dispatch_type sync_api_keys item = sync_with sync_api_keys workers.key_sync
  dispatch_type sync_cloud_storage item = sync_with sync_cloud_storage workers.cloud_sync
  dispatch_type sync_provider_keys item = sync_with sync_provider_keys workers.provider_sync
  dispatch_type sync_experiments item = sync_with sync_experiments workers.experiment_sync
  dispatch_type replay item = execute_with replay (workers.execute_replay item.org_id) item.run_id
  dispatch_type eval item = execute_with eval (workers.execute_eval item.org_id) item.run_id
  dispatch_type (other_job name) item = λ w. (w, some (unknown_job_type name))

  unfoldable pub dispatch : WorkItem → Job W
  dispatch item = dispatch_type item.job_type item

-- A request that markResult posts: the job, and `ack` or `fail`.
pub record Post : Type 0 where
  pub job : ℕ
  pub is_ack : Bool

-- The ticker's surroundings: the world, and the posts so far.
pub record State (W : Type 0) : Type 0 where
  pub world : W
  pub posts : List Post
  pub succeeded : ℕ
  pub failed : ℕ

module _ {W : Type 0} (workers : Workers W) where
  -- markResult in the world that the job left: after the deadline, or where the client fails, the error is
  -- logged and no request is posted.
  abbrev pub mark_result : W → ℕ → Bool → List Post → List Post
  mark_result w job success posts =
      if workers.is_expired w
      then posts
      else if workers.connects w job
      then posts ++ (record { job = job; is_ack = success } ∷ [])
      else posts

  -- The body of the loop, given what dispatch returned.
  abbrev pub settle : ℕ → List Post → ℕ → ℕ → W × Option WorkError → State W
  settle job posts succeeded failed (w, some error) = record {
    world = w;
    posts = mark_result w job false posts;
    succeeded = succeeded;
    failed = failed + 1;
  }
  settle job posts succeeded failed (w, none) = record {
    world = w;
    posts = mark_result w job true posts;
    succeeded = succeeded + 1;
    failed = failed;
  }

-- What Butler answers to GET /work: none where the request fails, the status is not 200 or the
-- body is not decoded.
abbrev pub fetch_work : Option (ℕ × Option (List WorkItem)) → Option (List WorkItem)
fetch_work none = none
fetch_work (some (status, body)) = if status == 200 then body else none

module _ {W : Type 0} (workers : Workers W) where
  unfoldable pub run_item : WorkItem → State W → State W
  run_item item s =
      settle workers item.job_id s.posts s.succeeded s.failed (dispatch workers item s.world)

  unfoldable pub run_items : List WorkItem → State W → State W
  run_items [] s = s
  run_items (item ∷ items) s = run_items items (run_item item s)

  abbrev pub tick_items : Option (List WorkItem) → W → State W
  tick_items none w = record { world = w; posts = []; succeeded = 0; failed = 0 }
  tick_items (some items) w =
      run_items items (record { world = w; posts = []; succeeded = 0; failed = 0 })

  unfoldable pub tick : Option (ℕ × Option (List WorkItem)) → W → State W
  tick answer w = tick_items (fetch_work answer) w
