-- ===== src/Steward/Workers.antt =====
-- internal/steward/workers.go: the manager of the workers of each organisation. An identifier is a number;
-- the fields of the configuration that all organisations share are left out. m.mu is held through each
-- operation, so operations are taken one after the other.
pub mod Balance
use majordomo_steward.Prelude.{
  ℕ, ◌==◌, Bool, true, false, Option, none, some, List, [], ◌∷◌, ◌++◌, Str, if◌then◌else◌,
}

-- What StartOrg sets of config.StewardConfig.
pub record OrgConfig : Type 0 where
  pub org_id : ℕ
  pub butler_base_url : Str
  pub steward_token : Str

-- The fields of orgWorkers.
pub data Worker : Type 0 where
  reporter : Worker
  results_reporter : Worker
  work_ticker : Worker

-- A call of Start or of Stop of a worker that was made with a configuration.
pub data Event : Type 0 where
  started : Worker → OrgConfig → Event
  stopped : Worker → OrgConfig → Event

-- WorkerManager: the map `active` from the identifier in a configuration to the workers that were made
-- with it, in some order of iteration, and the calls of Start and Stop so far, the last one at the end.
pub record WorkerManager : Type 0 where
  pub active : List OrgConfig
  pub events : List Event

abbrev pub new_worker_manager : WorkerManager
new_worker_manager = record { active = []; events = [] }

-- `w, ok := m.active[orgID]`
abbrev pub find_org : ℕ → List OrgConfig → Option OrgConfig
find_org id [] = none
find_org id (c ∷ active) = if c.org_id == id then some c else find_org id active

-- `delete(m.active, orgID)`
abbrev pub delete_org : ℕ → List OrgConfig → List OrgConfig
delete_org id [] = []
delete_org id (c ∷ active) =
    let rest = delete_org id active in if c.org_id == id then rest else c ∷ rest

abbrev pub start_workers : OrgConfig → List Event
start_workers c = started reporter c ∷ started results_reporter c ∷ started work_ticker c ∷ []

abbrev pub stop_workers : OrgConfig → List Event
stop_workers c = stopped reporter c ∷ stopped results_reporter c ∷ stopped work_ticker c ∷ []

abbrev pub start_new : OrgConfig → WorkerManager → Option OrgConfig → WorkerManager
start_new c m (some w) = m
start_new c m none = record { active = c ∷ m.active; events = m.events ++ start_workers c }

-- StartOrg, with the error that it returns, which is always nil.
unfoldable pub start_org : ℕ → Str → Str → WorkerManager → WorkerManager × Option Str
start_org id url token m =
    let c : OrgConfig = record { org_id = id; butler_base_url = url; steward_token = token } in
    (start_new c m (find_org id m.active), none)

abbrev pub stop_found : ℕ → WorkerManager → Option OrgConfig → WorkerManager
stop_found id m none = m
stop_found id m (some c) = record {
  active = delete_org id m.active;
  events = m.events ++ stop_workers c;
}

unfoldable pub stop_org : ℕ → WorkerManager → WorkerManager
stop_org id m = stop_found id m (find_org id m.active)

-- `for orgID, w := range m.active { … }`
abbrev pub stop_each : List OrgConfig → List Event
stop_each [] = []
stop_each (c ∷ active) = stop_workers c ++ stop_each active

unfoldable pub stop_all : WorkerManager → WorkerManager
stop_all m = record { active = []; events = m.events ++ stop_each m.active }

-- RegisteredOrg, a row of registered_orgs, without the time of its creation.
pub record RegisteredOrg : Type 0 where
  pub org_id : ℕ
  pub name : Str
  pub butler_url : Str
  pub token_encrypted : Str

-- A call of the manager by the registration of organisations, the administration, or the server.
pub data Step : Type 0 where
  start : ℕ → Str → Str → Step
  stop : ℕ → Step
  stop_every : Step
  load : Option (List RegisteredOrg) → Step

module _ (decrypt : Str → Option Str) where
  -- A token that is not decrypted is skipped.
  abbrev pub load_org : RegisteredOrg → WorkerManager → Option Str → WorkerManager
  load_org org m none = m
  load_org org m (some plaintext) = (start_org org.org_id org.butler_url plaintext m).0

  abbrev pub load_orgs : List RegisteredOrg → WorkerManager → WorkerManager
  load_orgs [] m = m
  load_orgs (org ∷ orgs) m = load_orgs orgs (load_org org m (decrypt org.token_encrypted))

  -- LoadFromDB, with the rows that ListRegisteredOrgs returns, or none if it fails; the second result is
  -- whether nil is returned.
  unfoldable pub load_from_db : Option (List RegisteredOrg) → WorkerManager → WorkerManager × Bool
  load_from_db none m = (m, false)
  load_from_db (some orgs) m = (load_orgs orgs m, true)

  unfoldable pub call : Step → WorkerManager → WorkerManager
  call (start id url token) m = (start_org id url token m).0
  call (stop id) m = stop_org id m
  call stop_every m = stop_all m
  call (load rows) m = (load_from_db rows m).0

  -- The manager after some calls, the first of which stands first.
  unfoldable pub call_all : List Step → WorkerManager → WorkerManager
  call_all [] m = m
  call_all (x ∷ steps) m = call_all steps (call x m)
