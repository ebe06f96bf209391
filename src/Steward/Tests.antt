-- ===== src/Steward/Tests.antt =====
-- Tests of the worker manager.
use majordomo_steward.Prelude.{ℕ, Option, none, some, List, [], ◌∷◌, Str, lit, ◌≡◌, refl, arith}
use majordomo_steward.Steward.Workers.{
  new_worker_manager, RegisteredOrg, Step, start, stop, stop_every, load, call, call_all, start_org,
  stop_org, stop_all, load_from_db, reporter,
}
use majordomo_steward.Steward.Workers.Balance.{starts, stops, IsBalanced, call_all-IsBalanced}

-- Every token is decrypted but the empty one.
abbrev decrypt_full : Str → Option Str
decrypt_full [] = none
decrypt_full (x ∷ token) = some token

abbrev org_row : ℕ → Str → RegisteredOrg
org_row id token = record {
  org_id = id;
  name = lit "acme";
  butler_url = lit "https://butler";
  token_encrypted = token;
}

-- Two rows of which one is skipped, a second start that is ignored, a stop, and a new start.
abbrev manager_steps : List Step
manager_steps =
    load (some (org_row 1 (lit "xa") ∷ org_row 2 [] ∷ []))
    ∷ start 1 (lit "https://butler") (lit "b")
    ∷ stop 1
    ∷ stop 2
    ∷ start 1 (lit "https://butler") (lit "c")
    ∷ []

call_all-starts :
    (starts reporter 1 (call_all decrypt_full manager_steps new_worker_manager).events ≡ 2)
    × (stops reporter 1 (call_all decrypt_full manager_steps new_worker_manager).events ≡ 1)
unfolding call_all call start_org stop_org load_from_db
call_all-starts = (refl, refl)

call_all-stop_every :
    (call_all decrypt_full
      (stop_every ∷ [])
      (call_all decrypt_full manager_steps new_worker_manager)).active
    ≡ []
unfolding call_all call stop_all
call_all-stop_every = refl

new_worker_manager-IsBalanced : IsBalanced new_worker_manager
new_worker_manager-IsBalanced = λ w id. (refl, omega arith)

call_all-IsBalanced_example : IsBalanced (call_all decrypt_full manager_steps new_worker_manager)
call_all-IsBalanced_example =
    call_all-IsBalanced decrypt_full manager_steps new_worker_manager new_worker_manager-IsBalanced
