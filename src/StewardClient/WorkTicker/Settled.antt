-- ===== src/StewardClient/WorkTicker/Settled.antt =====
-- Every item of a tick is settled once, and a refused item blocks nothing.
use mathlib.Core.List.{append_assoc, append-nil}
use majordomo_steward.Prelude.{
  ℕ, ◌+◌, Bool, true, false, not, ◌&&◌, if◌then◌else◌, Option, none, some, List, [], ◌∷◌, ◌++◌, map,
  ◌≡◌, refl, sym, ap, subst, ◌∙◌, arith, Bool-cases, ◌⊎◌, inl, inr,
}
use majordomo_steward.StewardClient.WorkTicker.{
  JobType, sync_api_keys, sync_cloud_storage, sync_provider_keys, sync_experiments, replay, eval,
  other_job, WorkItem, WorkError, Workers, Post, State, dispatch, mark_result, settle, run_item,
  run_items, tick, Job, sync_with, execute_with, dispatch_type,
}

-- The Boolean by which an item is settled.
abbrev pub is_success : Option WorkError → Bool
is_success none = true
is_success (some error) = false

abbrev pub one_if : Bool → ℕ
one_if true = 1
one_if false = 0

-- The verdict on an item: whether the request with it goes out, and the request.
abbrev pub Verdict : Type 0
Verdict = Bool × Post

abbrev pub count_acks : List Verdict → ℕ
count_acks [] = 0
count_acks ((out, p) ∷ verdicts) = one_if p.is_ack + count_acks verdicts

abbrev pub count_fails : List Verdict → ℕ
count_fails [] = 0
count_fails ((out, p) ∷ verdicts) = one_if (not p.is_ack) + count_fails verdicts

abbrev pub post_if : Bool → Post → List Post
post_if true p = p ∷ []
post_if false p = []

-- The requests that go out, in order.
abbrev pub sent_posts : List Verdict → List Post
sent_posts [] = []
sent_posts ((out, p) ∷ verdicts) = post_if out p ++ sent_posts verdicts

state_cong :
    {W : Type 0} {w : W} {p q : List Post} {a b c d : ℕ} {s t : State W}
    → s ≡ record { world = w; posts = p; succeeded = a; failed = c }
    → p ≡ q
    → a ≡ b
    → c ≡ d
    → t ≡ record { world = w; posts = q; succeeded = b; failed = d }
    → s ≡ t
state_cong l p a c r = cc

module _ {W : Type 0} (workers : Workers W) where
  -- A request goes out before the deadline of the tick, if the client does not fail.
  abbrev pub goes_out : W → ℕ → Bool
  goes_out w job = not (workers.is_expired w) && workers.connects w job

  -- The verdicts on the items, each in the world that the jobs of the items before it left.
  abbrev pub verdicts : List WorkItem → W → List Verdict
  verdicts [] w = []
  verdicts (item ∷ items) w =
      let (w', error) = dispatch workers item w in
      (goes_out w' item.job_id, record { job = item.job_id; is_ack = is_success error })
      ∷ verdicts items w'

  abbrev pub final_world : List WorkItem → W → W
  final_world [] w = w
  final_world (item ∷ items) w = final_world items (dispatch workers item w).0

  abbrev settled : State W → List WorkItem → State W
  settled s items = record {
    world = final_world items s.world;
    posts = s.posts ++ sent_posts (verdicts items s.world);
    succeeded = s.succeeded + count_acks (verdicts items s.world);
    failed = s.failed + count_fails (verdicts items s.world);
  }

  mark_result_lem :
      (w : W) (job : ℕ) (success : Bool) (posts : List Post)
      → mark_result workers w job success posts
        ≡ posts ++ post_if (goes_out w job) (record { job = job; is_ack = success })
  mark_result_lem w job success posts = elim (Bool-cases (workers.is_expired w)) [
    | inl late ↦ rw late (sym (append-nil posts))
    | inr early ↦ elim (Bool-cases (workers.connects w job)) [
      | inl sent ↦ rw (early, sent) refl
      | inr lost ↦ rw (early, lost) (sym (append-nil posts))
    ]
  ]

  settle-is :
      (job : ℕ) (posts : List Post) (succeeded failed : ℕ) (r : W × Option WorkError)
      → settle workers job posts succeeded failed r ≡ record {
        world = r.0;
        posts = posts ++ post_if (goes_out r.0 job) (record { job = job; is_ack = is_success r.1 });
        succeeded = succeeded + one_if (is_success r.1);
        failed = failed + one_if (not (is_success r.1));
      }
  settle-is job posts succeeded failed (w, none) =
      state_cong refl (mark_result_lem w job true posts) (omega arith) (omega arith) refl
  settle-is job posts succeeded failed (w, some error) =
      state_cong refl (mark_result_lem w job false posts) (omega arith) (omega arith) refl

  settled-step :
      (item : WorkItem) (items : List WorkItem) (s : State W)
      → settled (run_item workers item s) items ≡ settled s (item ∷ items)
  unfolding run_item
  settled-step item items s =
      let r : W × Option WorkError = dispatch workers item s.world in
      ap (λ t. settled t items) (settle-is item.job_id s.posts s.succeeded s.failed r)
      ∙ state_cong refl
          (append_assoc s.posts
            (post_if (goes_out r.0 item.job_id)
              (record { job = item.job_id; is_ack = is_success r.1 }))
            (sent_posts (verdicts items r.0)))
          (omega arith) (omega arith) refl

  run_items-is : (items : List WorkItem) (s : State W) → run_items workers items s ≡ settled s items
  unfolding run_items
  run_items-is [] s = state_cong refl (sym (append-nil s.posts)) (omega arith) (omega arith) refl
  run_items-is (item ∷ items) s =
      run_items-is items (run_item workers item s) ∙ settled-step item items s

-- Whether the steward has what the job needs.
abbrev pub is_some {ℓ} : {A : Type ℓ} → Option A → Bool
is_some none = false
is_some (some a) = true

module _ {W : Type 0} (workers : Workers W) where
  abbrev pub can_run_type : JobType → WorkItem → Bool
  can_run_type sync_api_keys item = is_some workers.key_sync
  can_run_type sync_cloud_storage item = is_some workers.cloud_sync
  can_run_type sync_provider_keys item = is_some workers.provider_sync
  can_run_type sync_experiments item = is_some workers.experiment_sync
  can_run_type replay item = is_some item.run_id
  can_run_type eval item = is_some item.run_id
  can_run_type (other_job name) item = false

  abbrev pub can_run : WorkItem → Bool
  can_run item = can_run_type item.job_type item

  abbrev pub runnable : List WorkItem → List WorkItem
  runnable [] = []
  runnable (item ∷ items) = if can_run item then item ∷ runnable items else runnable items

  -- A job that is refused: the world is left alone, and an error is returned.
  abbrev Refuses : W → W × Option WorkError → Type 0
  Refuses w r = (r.0 ≡ w) × (is_success r.1 ≡ false)

  sync_with-refused :
      (job : JobType) (sync : Option (Job W)) (w : W)
      → is_some sync ≡ false
      → Refuses w (sync_with workers job sync w)
  sync_with-refused job none w h = (refl, refl)
  sync_with-refused job (some sync) w h = absurd (cc)

  execute_with-refused :
      (job : JobType) (execute : ℕ → Job W) (run_id : Option ℕ) (w : W)
      → is_some run_id ≡ false
      → Refuses w (execute_with workers job execute run_id w)
  execute_with-refused job execute none w h = (refl, refl)
  execute_with-refused job execute (some run) w h = absurd (cc)

  dispatch_type-refused :
      (t : JobType) (item : WorkItem) (w : W)
      → can_run_type t item ≡ false
      → Refuses w (dispatch_type workers t item w)
  dispatch_type-refused sync_api_keys item w h =
      sync_with-refused sync_api_keys workers.key_sync w h
  dispatch_type-refused sync_cloud_storage item w h =
      sync_with-refused sync_cloud_storage workers.cloud_sync w h
  dispatch_type-refused sync_provider_keys item w h =
      sync_with-refused sync_provider_keys workers.provider_sync w h
  dispatch_type-refused sync_experiments item w h =
      sync_with-refused sync_experiments workers.experiment_sync w h
  dispatch_type-refused replay item w h =
      execute_with-refused replay (workers.execute_replay item.org_id) item.run_id w h
  dispatch_type-refused eval item w h =
      execute_with-refused eval (workers.execute_eval item.org_id) item.run_id w h
  dispatch_type-refused (other_job name) item w h = (refl, refl)

  dispatch-refused :
      (item : WorkItem) (w : W) → can_run item ≡ false → Refuses w (dispatch workers item w)
  unfolding dispatch
  dispatch-refused item w h = dispatch_type-refused item.job_type item w h

  final_world-runnable :
      (items : List WorkItem) (w : W)
      → final_world workers (runnable items) w ≡ final_world workers items w
  final_world-runnable [] w = refl
  final_world-runnable (item ∷ items) w = elim (Bool-cases (can_run item)) [
    | inl runs ↦ rw runs (final_world-runnable items _)
    | inr refused ↦ rw refused (
        final_world-runnable items w
        ∙ ap (final_world workers items) (sym (dispatch-refused item w refused).0))
  ]

  -- The jobs of the items whose requests go out, in order.
  abbrev pub reported : List WorkItem → W → List ℕ
  reported [] w = []
  reported (item ∷ items) w =
      let (w', error) = dispatch workers item w in
      let rest = reported items w' in
      if goes_out workers w' item.job_id then item.job_id ∷ rest else rest

  sent_posts-jobs :
      (items : List WorkItem) (w : W)
      → map (λ p. p.job) (sent_posts (verdicts workers items w)) ≡ reported items w
  sent_posts-jobs [] w = refl
  sent_posts-jobs (item ∷ items) w =
      let w' = (dispatch workers item w).0 in
      elim (Bool-cases (goes_out workers w' item.job_id)) [
        | inl out ↦ rw out (ap (λ l. item.job_id ∷ l) (sent_posts-jobs items w'))
        | inr lost ↦ rw lost (sent_posts-jobs items w')
      ]

  -- The verdict on an item that cannot run is a failure.
  abbrev pub Honest : List WorkItem → List Verdict → Type 0
  Honest [] posts = Unit
  Honest (item ∷ items) [] = ⊥
  Honest (item ∷ items) ((out, p) ∷ posts) =
      (p.job ≡ item.job_id) × ((p.is_ack ≡ false) ⊎ (can_run item ≡ true)) × Honest items posts

  verdicts-Honest : (items : List WorkItem) (w : W) → Honest items (verdicts workers items w)
  verdicts-Honest [] w = tt
  verdicts-Honest (item ∷ items) w = (
    refl,
    elim (Bool-cases (can_run item)) [
      | inl runs ↦ inr runs
      | inr refused ↦ inl (dispatch-refused item w refused).1
    ],
    verdicts-Honest items (dispatch workers item w).0,
  )

  -- What a tick that fetched `items` in the world `w` leaves.
  pub record Settles (items : List WorkItem) (w : W) (s : State W) : Type 0 where
    pub by_verdict : s.posts ≡ sent_posts (verdicts workers items w)
    pub in_order : map (λ p. p.job) s.posts ≡ reported items w
    pub honest : Honest items (verdicts workers items w)
    pub counted :
        (s.succeeded ≡ count_acks (verdicts workers items w))
        × (s.failed ≡ count_fails (verdicts workers items w))
    pub unblocked : s.world ≡ final_world workers (runnable items) w

  -- For any items, after a 200 answer with them: Butler is sent the verdicts on the items, in order, each
  -- at most once, and without those whose request comes after the deadline of the tick or fails; an item
  -- is acknowledged if dispatching it in the world that the items before it left returned no error, and
  -- failed otherwise; an item that the steward cannot run (a syncer or a run_id missing, an unknown type)
  -- is never acknowledged; the counters count the verdicts, sent or not; and the world is the one that the
  -- items that can run leave when the others are not there.
  pub tick-Settles :
      (items : List WorkItem) (w : W) → Settles items w (tick workers (some (200, some items)) w)
  unfolding tick
  tick-Settles items w = subst (Settles items w) (sym (run_items-is workers items _)) (record {
    by_verdict = refl;
    in_order = sent_posts-jobs items w;
    honest = verdicts-Honest items w;
    counted = (omega arith, omega arith);
    unblocked = sym (final_world-runnable items w);
  })
