-- ===== src/StewardClient/Managed/Tests.antt =====
-- Tests of the poller of organisations.
use majordomo_steward.Prelude.{
  ℕ, ◌==◌, not, Option, none, some, List, [], ◌∷◌, Str, lit, drop, All, ap, sym, ◌≡◌,
}
use majordomo_steward.Steward.Workers.{new_worker_manager, load_from_db}
use majordomo_steward.StewardClient.Managed.{PendingAssignment, Orgs, answered, poll}
use majordomo_steward.StewardClient.Managed.Claims.{claimable, IsServed, poll-Claims}
use majordomo_steward.StewardClient.Managed.Restart.{IsDecryptable, AllActive, poll-Restarts}

abbrev mark_token : Str → Option Str
mark_token token = some (120 ∷ token)

abbrev unmark_token : Str → Option Str
unmark_token e = some (drop 1 e)

mark_token-unmark_token : (token e : Str) → mark_token token ≡ some e → unmark_token e ≡ some token
mark_token-unmark_token token e h =
    sym (ap (λ (o : Option Str). elim o [ none ↦ none | some x ↦ unmark_token x ]) h)

abbrev pending : ℕ → ℕ → PendingAssignment
pending id org = record { id = id; org_id = org; org_name = lit "acme"; token = lit "t" }

-- Three assignments, two of which are of one organisation; the database refuses the row of the second.
abbrev pending_list : List PendingAssignment
pending_list = pending 1 7 ∷ pending 2 8 ∷ pending 3 7 ∷ []

abbrev no_orgs : Orgs
no_orgs = record { workers = new_worker_manager; registered = []; claims = [] }

abbrev polled : Orgs
polled =
    poll (lit "https://butler") mark_token (λ id. not (id == 2)) (answered 200 (some pending_list))
      no_orgs

abbrev claimed : List PendingAssignment
claimed = claimable (lit "https://butler") mark_token (λ id. not (id == 2)) pending_list

poll-Claims_example : (polled.claims ≡ claimed) × All (IsServed polled) claimed
poll-Claims_example =
    poll-Claims (lit "https://butler") mark_token (λ id. not (id == 2)) pending_list no_orgs

poll-Restarts_example :
    All (IsDecryptable unmark_token) polled.registered
    × AllActive unmark_token
        (lit "https://butler")
        mark_token
        (λ id. not (id == 2))
        mark_token-unmark_token
        (load_from_db unmark_token (some polled.registered) new_worker_manager).0
        claimed
poll-Restarts_example =
    poll-Restarts unmark_token (lit "https://butler") mark_token (λ id. not (id == 2))
      mark_token-unmark_token pending_list no_orgs _
