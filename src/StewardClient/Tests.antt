-- ===== src/StewardClient/Tests.antt =====
-- Runs of the models of internal/stewardclient, and the theorems at them.
use majordomo_steward.Prelude.{Str, lit, ◌++◌}
use majordomo_steward.StewardClient.ProviderKeySync.{Payload, ProviderApiKey, encrypt_and_convert}
use majordomo_steward.StewardClient.ProviderKeySync.Converted.{
  Matches, with_key, encrypt_and_convert-Matches,
}
use majordomo_steward.Prelude.{ltb, false, ok, Returns, Option, subst, length, ◌<◌}
use majordomo_steward.StewardClient.KeySync
use majordomo_steward.StewardClient.KeySync.Watermark.{sync-Returns}
use majordomo_steward.Prelude.{
  ℕ, ◌+◌, true, false, none, some, List, [], ◌∷◌, ◌≡◌, refl, arith, ◌==◌, if◌then◌else◌,
}
use majordomo_steward.StewardClient.Reporter.{
  Round, State, flush, flush_round, fetch_unsynced_records, send_batch, mark_synced,
}
use majordomo_steward.StewardClient.Reporter.Safety.{Safe, flush-Safe}
use majordomo_steward.StewardClient.Reporter.Drain.{flush-Returns, Drained, flush-Drained}
use majordomo_steward.StewardClient.WorkTicker.{
  WorkItem, Workers, tick, sync_api_keys, sync_experiments, replay, job_failed,
}
use majordomo_steward.StewardClient.WorkTicker.Settled.{Settles, tick-Settles}

abbrev good_round : Round
good_round = record { arrivals = []; fetched = true; reply = some 200; marked = true }

-- Butler answers 500 from the second round on.
abbrev failing : ℕ → Round
failing n = record good_round { reply = if n == 0 then some 200 else some 500 }

abbrev three_rows : State
three_rows = record {
  rows =
      record { id = 1; synced = false }
      ∷ record { id = 2; synced = false }
      ∷ record { id = 3; synced = false }
      ∷ [];
  delivered = [];
}

abbrev one_page : State
one_page = record {
  rows =
      record { id = 1; synced = true }
      ∷ record { id = 2; synced = true }
      ∷ record { id = 3; synced = false }
      ∷ [];
  delivered = 1 ∷ 2 ∷ [];
}

flush-failing : flush 5 2 failing 0 three_rows ≡ some one_page
unfolding flush flush_round fetch_unsynced_records send_batch mark_synced
flush-failing = refl

flush-Safe_example : Safe three_rows one_page
flush-Safe_example =
    flush-Safe 5 2 failing 0 three_rows one_page ((λ h. cc), ((λ h. cc), ((λ h. cc), tt)))
      flush-failing

flush-Returns_example : (t : State) × (flush 4 2 failing 0 three_rows ≡ some t)
flush-Returns_example =
    flush-Returns 4 2 failing 0 three_rows (omega arith) (λ k. refl) (omega arith)

flush-Drained_example : Drained three_rows (flush 4 2 (λ n. good_round) 0 three_rows)
flush-Drained_example =
    flush-Drained 4 2 (λ n. good_round) 0 three_rows (omega arith) (λ k. refl) (omega arith)
      (λ k. (refl, refl, refl)) ((λ h. cc), ((λ h. cc), ((λ h. cc), tt)))

-- A world that counts the jobs, in which syncing keys works and a replay fails.
abbrev workers : Workers ℕ
workers = record {
  key_sync = some (λ w. (w + 1, none));
  cloud_sync = none;
  provider_sync = none;
  experiment_sync = none;
  execute_replay = λ org run w. (w + 10, some (job_failed run));
  execute_eval = λ org run w. (w + 100, none);
  is_expired = λ w. ltb 500 w;
  connects = λ w job. true;
}

abbrev work : List WorkItem
work =
    record { job_id = 1; org_id = 7; job_type = sync_experiments; run_id = none }
    ∷ record { job_id = 2; org_id = 7; job_type = replay; run_id = some 5 }
    ∷ record { job_id = 3; org_id = 7; job_type = sync_api_keys; run_id = none }
    ∷ []

tick-Settles_example : Settles workers work 0 (tick workers (some (200, some work)) 0)
tick-Settles_example = tick-Settles workers work 0

-- The same without a deadline.
abbrev patient : Workers ℕ
patient = record workers { is_expired = λ w. false }

-- A key, by its identifier, its time and its behaviour.
abbrev key_at : ℕ → ℕ → Str → KeySync.ApiKeyRecord
key_at id time behavior = record {
  id = id;
  key_hash = lit "hash";
  name = lit "key";
  description = none;
  is_active = true;
  user_id = none;
  org_id = some 7;
  created_at = time;
  revoked_at = none;
  updated_at = time;
  deprecated_model_behavior = behavior;
}

-- A new key and one that was stored before.
abbrev two_records : ℕ → ℕ → Option (List KeySync.ApiKeyRecord)
two_records n cursor = some (key_at 1 (cursor + 1) [] ∷ key_at 2 (cursor + 4) (lit "warn") ∷ [])

abbrev synced_before : KeySync.State
synced_before = record { cursor = 5; stored = key_at 2 3 (lit "warn") ∷ [] }

-- The key that was there keeps the time of its creation.
sync-two : KeySync.sync 2 two_records (λ n. true) synced_before ≡ (
  record {
    cursor = 9;
    stored =
        record (key_at 2 9 (lit "warn")) { created_at = 3 } ∷ key_at 1 6 (lit "passthrough") ∷ [];
  },
  ok tt,
)
unfolding KeySync.sync KeySync.fetch KeySync.upsert_api_keys
sync-two = refl

abbrev IsShort : Option (List KeySync.ApiKeyRecord) → Type 0
IsShort none = Unit
IsShort (some page) = length page < KeySync.limit

sync-Returns_example : Returns (KeySync.sync 2 two_records (λ n. true) synced_before).1
sync-Returns_example =
    sync-Returns 2 two_records 1 (λ n. true) synced_before
      (λ c page e. subst IsShort e (omega arith)) (omega arith)

abbrev two_payloads : List Payload
two_payloads =
    record {
      id = 1;
      user_id = none;
      org_id = some 2;
      provider = lit "openai";
      key = [];
      created_at = 3;
      updated_at = 4;
    }
    ∷ record {
      id = 5;
      user_id = none;
      org_id = some 2;
      provider = lit "gemini";
      key = lit "k";
      created_at = 6;
      updated_at = 7;
    }
    ∷ []

-- An encryption for the runs, which adds a letter.
abbrev seal : Str → Option Str
seal key = some (lit "s" ++ key)

abbrev sealed_records : List ProviderApiKey
sealed_records =
    record {
      id = 5;
      user_id = none;
      org_id = some 2;
      provider = lit "gemini";
      encrypted_key = lit "sk";
      created_at = 6;
      updated_at = 7;
    }
    ∷ []

encrypt-two : encrypt_and_convert seal two_payloads ≡ some sealed_records
unfolding encrypt_and_convert
encrypt-two = refl

encrypt_and_convert-Matches_example : Matches seal (with_key two_payloads) sealed_records
encrypt_and_convert-Matches_example =
    encrypt_and_convert-Matches seal two_payloads sealed_records encrypt-two
