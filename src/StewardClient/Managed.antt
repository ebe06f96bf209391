-- ===== src/StewardClient/Managed.antt =====
-- internal/stewardclient/managed.go: a poll of Butler for new organisations, over the worker manager,
-- which is the one implementation of OrgStarter, and the table registered_orgs. Encryption is an argument.
pub mod Claims
pub mod Restart
pub mod Tests
use majordomo_steward.Prelude.{
  ℕ, ◌==◌, Bool, true, false, Option, none, some, List, [], ◌∷◌, ◌++◌, Str, if◌then◌else◌,
}
use majordomo_steward.Steward.Workers.{WorkerManager, RegisteredOrg, start_org}

-- pendingAssignment
pub record PendingAssignment : Type 0 where
  pub id : ℕ
  pub org_id : ℕ
  pub org_name : Str
  pub token : Str

-- What the poller changes: the workers, the rows of registered_orgs in the order of their creation, and
-- the assignments that it has asked Butler to claim, the last one at the end.
pub record Orgs : Type 0 where
  pub workers : WorkerManager
  pub registered : List RegisteredOrg
  pub claims : List PendingAssignment

-- The upsert of RegisterOrg in internal/repositories/steward.go.
abbrev pub upsert_org : RegisteredOrg → List RegisteredOrg → List RegisteredOrg
upsert_org row [] = row ∷ []
upsert_org row (r ∷ rows) =
    let rest = upsert_org row rows in if r.org_id == row.org_id then row ∷ rows else r ∷ rest

-- Why an assignment is not claimed.
pub data AssignmentError : Type 0 where
  encrypt_token : AssignmentError
  register_org_locally : AssignmentError
  start_org_workers : Str → AssignmentError

-- The answer to GET /steward/managed/pending: none, or a status and the list that its body decodes to.
pub data PendingAnswer : Type 0 where
  no_answer : PendingAnswer
  answered : ℕ → Option (List PendingAssignment) → PendingAnswer

-- fetchPending; none is an error.
unfoldable pub fetch_pending : PendingAnswer → Option (List PendingAssignment)
fetch_pending no_answer = none
fetch_pending (answered status body) = if status == 200 then body else none

-- The poller of a Butler with that base URL. `register_ok` says for an assignment whether the database takes
-- its row.
module _ (butler_url : Str) (encrypt : Str → Option Str) (register_ok : ℕ → Bool) where
  abbrev pub registered_org : PendingAssignment → Str → RegisteredOrg
  registered_org a encrypted = record {
    org_id = a.org_id;
    name = a.org_name;
    butler_url = butler_url;
    token_encrypted = encrypted;
  }

  -- The claim is posted once the workers were started; its answer decides only what is logged.
  abbrev pub claim_started : PendingAssignment → Orgs → Option Str → Orgs × Option AssignmentError
  claim_started a s (some e) = (s, some (start_org_workers e))
  claim_started a s none = (record s { claims = s.claims ++ (a ∷ []) }, none)

  abbrev pub start_registered : PendingAssignment → Orgs → Orgs × Option AssignmentError
  start_registered a s =
      let started = start_org a.org_id butler_url a.token s.workers in
      claim_started a (record s { workers = started.0 }) started.1

  abbrev pub register_encrypted :
      PendingAssignment → Orgs → Option Str → Orgs × Option AssignmentError
  register_encrypted a s none = (s, some encrypt_token)
  register_encrypted a s (some encrypted) =
      if register_ok a.id
      then start_registered a
          (record s { registered = upsert_org (registered_org a encrypted) s.registered })
      else (s, some register_org_locally)

  unfoldable pub handle_assignment : PendingAssignment → Orgs → Orgs × Option AssignmentError
  handle_assignment a s = register_encrypted a s (encrypt a.token)

  -- An assignment that fails is logged, and the next one is handled.
  abbrev pub handle_all : List PendingAssignment → Orgs → Orgs
  handle_all [] s = s
  handle_all (a ∷ assignments) s = handle_all assignments (handle_assignment a s).0

  abbrev pub handle_pending : Option (List PendingAssignment) → Orgs → Orgs
  handle_pending none s = s
  handle_pending (some assignments) s = handle_all assignments s

  unfoldable pub poll : PendingAnswer → Orgs → Orgs
  poll answer s = handle_pending (fetch_pending answer) s
