-- ===== src/Steward/Workers/Balance.antt =====
-- The workers that run: those that were started and not stopped.
use majordomo_steward.Prelude.{
  ℕ, ◌+◌, ◌≤◌, ◌==◌, Bool, true, false, Option, none, some, List, [], ◌∷◌, ◌++◌, Str, ◌≡◌, refl,
  arith, if◌then◌else◌,
}
use majordomo_steward.Steward.Workers.{
  OrgConfig, Worker, reporter, results_reporter, work_ticker, Event, started, stopped,
  WorkerManager, find_org, delete_org, start_workers, stop_workers, start_new, start_org,
  stop_found, stop_org, stop_each, stop_all, RegisteredOrg, load_org, load_orgs, load_from_db, Step,
  start, stop, stop_every, load, call, call_all,
}

abbrev is_same : Worker → Worker → Bool
is_same reporter reporter = true
is_same reporter _ = false
is_same results_reporter results_reporter = true
is_same results_reporter _ = false
is_same work_ticker work_ticker = true
is_same work_ticker _ = false

-- 1 for the configuration of the organisation, else 0.
abbrev one_if_of : ℕ → OrgConfig → ℕ
one_if_of id c = if c.org_id == id then 1 else 0

-- The calls of Start of a worker of an organisation.
abbrev pub starts : Worker → ℕ → List Event → ℕ
starts w id [] = 0
starts w id (started v c ∷ events) =
    (if is_same w v then one_if_of id c else 0) + starts w id events
starts w id (stopped v c ∷ events) = starts w id events

-- The calls of Stop of a worker of an organisation.
abbrev pub stops : Worker → ℕ → List Event → ℕ
stops w id [] = 0
stops w id (started v c ∷ events) = stops w id events
stops w id (stopped v c ∷ events) = (if is_same w v then one_if_of id c else 0) + stops w id events

-- The entries of an organisation.
abbrev pub entries : ℕ → List OrgConfig → ℕ
entries id [] = 0
entries id (c ∷ active) = one_if_of id c + entries id active

-- Of each worker of each organisation one more was started than stopped while the organisation is
-- active, and as many otherwise.
abbrev pub IsBalanced : WorkerManager → Type 0
IsBalanced m =
    (w : Worker) (id : ℕ)
    → (starts w id m.events ≡ stops w id m.events + entries id m.active) × (entries id m.active ≤ 1)

starts-append :
    (w : Worker) (id : ℕ) (xs ys : List Event)
    → starts w id (xs ++ ys) ≡ starts w id xs + starts w id ys
starts-append w id [] ys = omega arith
starts-append w id (started v c ∷ xs) ys = omega (arith, starts-append w id xs ys)
starts-append w id (stopped v c ∷ xs) ys = starts-append w id xs ys

stops-append :
    (w : Worker) (id : ℕ) (xs ys : List Event)
    → stops w id (xs ++ ys) ≡ stops w id xs + stops w id ys
stops-append w id [] ys = omega arith
stops-append w id (started v c ∷ xs) ys = stops-append w id xs ys
stops-append w id (stopped v c ∷ xs) ys = omega (arith, stops-append w id xs ys)

starts-start_workers :
    (w : Worker) (id : ℕ) (c : OrgConfig) → starts w id (start_workers c) ≡ one_if_of id c
starts-start_workers reporter id c = omega arith
starts-start_workers results_reporter id c = omega arith
starts-start_workers work_ticker id c = omega arith

stops-stop_workers :
    (w : Worker) (id : ℕ) (c : OrgConfig) → stops w id (stop_workers c) ≡ one_if_of id c
stops-stop_workers reporter id c = omega arith
stops-stop_workers results_reporter id c = omega arith
stops-stop_workers work_ticker id c = omega arith

starts-stop_each :
    (w : Worker) (id : ℕ) (active : List OrgConfig) → starts w id (stop_each active) ≡ 0
starts-stop_each w id [] = refl
starts-stop_each w id (c ∷ active) = starts-stop_each w id active

stops-stop_each :
    (w : Worker) (id : ℕ) (active : List OrgConfig)
    → stops w id (stop_each active) ≡ entries id active
stops-stop_each w id [] = refl
stops-stop_each w id (c ∷ active) = omega (
  arith,
  stops-append w id (stop_workers c) (stop_each active),
  stops-stop_workers w id c,
  stops-stop_each w id active,
)

-- Entries of an organisation that is not found, and of one that is.
entries-find_none :
    (id : ℕ) (active : List OrgConfig) → find_org id active ≡ none → entries id active ≡ 0
entries-find_none id [] h = refl
entries-find_none id (c ∷ active) h = ground (arith, entries-find_none id active)

find_org-some :
    (id : ℕ) (active : List OrgConfig) (c : OrgConfig)
    → find_org id active ≡ some c
    → (c.org_id ≡ id) × (1 ≤ entries id active)
find_org-some id [] c h = ground arith
find_org-some id (d ∷ active) c h = ground (arith, find_org-some id active c)

entries-delete_org :
    (id j : ℕ) (active : List OrgConfig)
    → entries id (delete_org j active) ≡ (if j == id then 0 else entries id active)
entries-delete_org id j [] = ground arith
entries-delete_org id j (c ∷ active) = ground (arith, entries-delete_org id j active)

module _ (decrypt : Str → Option Str) where
  start-IsBalanced :
      (c : OrgConfig) (m : WorkerManager) (o : Option OrgConfig)
      → find_org c.org_id m.active ≡ o
      → IsBalanced m
      → IsBalanced (start_new c m o)
  start-IsBalanced c m (some d) found balanced = balanced
  start-IsBalanced c m none found balanced = λ w id.
      let e1 = starts-append w id m.events (start_workers c) in
      let e2 = stops-append w id m.events (start_workers c) in
      let e3 = starts-start_workers w id c in
      let e4 = entries-find_none c.org_id m.active found in
      let e5 = balanced w id in (omega arith, ground arith)

  stop-IsBalanced :
      (id : ℕ) (m : WorkerManager) (o : Option OrgConfig)
      → find_org id m.active ≡ o
      → IsBalanced m
      → IsBalanced (stop_found id m o)
  stop-IsBalanced j m none found balanced = balanced
  stop-IsBalanced j m (some c) found balanced = λ w id.
      let e1 = starts-append w id m.events (stop_workers c) in
      let e2 = stops-append w id m.events (stop_workers c) in
      let e3 = stops-stop_workers w id c in
      let e4 = entries-delete_org id j m.active in
      let e5 = balanced w id in
      let e6 = find_org-some j m.active c found in (ground arith, ground arith)

  stop_all-IsBalanced : (m : WorkerManager) → IsBalanced m → IsBalanced (stop_all m)
  unfolding stop_all
  stop_all-IsBalanced m balanced w id =
      let e1 = starts-append w id m.events (stop_each m.active) in
      let e2 = stops-append w id m.events (stop_each m.active) in
      let e3 = stops-stop_each w id m.active in
      let e4 = starts-stop_each w id m.active in
      let e5 = balanced w id in (omega arith, omega arith)

  load_org-IsBalanced :
      (org : RegisteredOrg) (m : WorkerManager) (token : Option Str)
      → IsBalanced m
      → IsBalanced (load_org decrypt org m token)
  unfolding start_org
  load_org-IsBalanced org m none balanced = balanced
  load_org-IsBalanced org m (some plaintext) balanced = start-IsBalanced _ m _ refl balanced

  load_orgs-IsBalanced :
      (orgs : List RegisteredOrg) (m : WorkerManager)
      → IsBalanced m
      → IsBalanced (load_orgs decrypt orgs m)
  load_orgs-IsBalanced [] m balanced = balanced
  load_orgs-IsBalanced (org ∷ orgs) m balanced =
      load_orgs-IsBalanced orgs _ (load_org-IsBalanced org m (decrypt org.token_encrypted) balanced)

  call-IsBalanced : (x : Step) (m : WorkerManager) → IsBalanced m → IsBalanced (call decrypt x m)
  unfolding call start_org stop_org load_from_db
  call-IsBalanced (start id url token) m balanced = start-IsBalanced _ m _ refl balanced
  call-IsBalanced (stop id) m balanced = stop-IsBalanced id m _ refl balanced
  call-IsBalanced stop_every m balanced = stop_all-IsBalanced m balanced
  call-IsBalanced (load none) m balanced = balanced
  call-IsBalanced (load (some orgs)) m balanced = load_orgs-IsBalanced orgs m balanced

  -- For all calls of the worker manager in any order, from a manager that is balanced, as a new one is:
  -- each worker of each organisation was started exactly once more than it was stopped while the
  -- organisation is in the active map, and exactly as often otherwise.
  pub call_all-IsBalanced :
      (steps : List Step) (m : WorkerManager) → IsBalanced m → IsBalanced (call_all decrypt steps m)
  unfolding call_all
  call_all-IsBalanced [] m balanced = balanced
  call_all-IsBalanced (x ∷ steps) m balanced =
      call_all-IsBalanced steps (call decrypt x m) (call-IsBalanced x m balanced)
