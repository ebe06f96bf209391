-- ===== src/StewardClient/KeySync.antt =====
-- internal/stewardclient/keysync.go: one Sync of API keys. The loop of fetch is over a type of records `K`
-- of which it reads only UpdatedAt. Butler is a function from the number of a request and the cursor in it to a
-- page, none where the request, the status or the decoding fails.
pub mod Watermark
pub mod Stored
use majordomo_steward.Prelude.{
  ℕ, zero, suc, ◌+◌, Bool, true, false, Option, none, some, List, [], ◌∷◌, ◌++◌, ltb, ◌==◌, length,
  if◌then◌else◌, Str, lit, str_eq, Result, ok, err, panic, out_of_fuel,
}

pub data SyncError : Type 0 where
  fetch_failed upsert_failed : SyncError

-- const limit = 200
abbrev pub limit : ℕ
limit = 200

-- The later of the cursor and a time.
abbrev pub later : ℕ → ℕ → ℕ
later cursor time = if ltb cursor time then time else cursor

module _ {K : Type 0} (updated_at : K → ℕ) where
  -- `for _, k := range page { if k.UpdatedAt.After(cursor) { cursor = k.UpdatedAt } }`
  abbrev pub advance : ℕ → List K → ℕ
  advance cursor [] = cursor
  advance cursor (k ∷ page) = advance (later cursor (updated_at k)) page

  -- What the loop does with an answer; `more` is the rest of the loop after a full page.
  abbrev pub on_page :
      Option (List K)
      → ℕ
      → List K
      → (List K → Result SyncError (List K × ℕ))
      → Result SyncError (List K × ℕ)
  on_page none cursor all more = err fetch_failed
  on_page (some page) cursor all more =
      if ltb (length page) limit then ok (all ++ page, advance cursor page) else more page

  -- The loop of fetch, from request number `n` on.
  unfoldable pub fetch :
      ℕ → (ℕ → ℕ → Option (List K)) → ℕ → ℕ → List K → Result SyncError (List K × ℕ)
  fetch zero butler n cursor all = out_of_fuel
  fetch (suc fuel) butler n cursor all =
      on_page (butler n cursor) cursor all
        (λ page. fetch fuel butler (n + 1) (advance cursor page) (all ++ page))

-- fetch of internal/stewardclient/experimentsync.go is the same loop over experiment records.
abbrev pub fetch_experiment_records :
    {K : Type 0}
    → (K → ℕ)
    → ℕ
    → (ℕ → ℕ → Option (List K))
    → ℕ
    → ℕ
    → List K
    → Result SyncError (List K × ℕ)
fetch_experiment_records = fetch

-- APIKeyRecord, which is also a row of api_keys.
pub record ApiKeyRecord : Type 0 where
  pub id : ℕ
  pub key_hash : Str
  pub name : Str
  pub description : Option Str
  pub is_active : Bool
  pub user_id : Option ℕ
  pub org_id : Option ℕ
  pub created_at : ℕ
  pub revoked_at : Option ℕ
  pub updated_at : ℕ
  pub deprecated_model_behavior : Str

-- The values of the INSERT.
abbrev pub inserted_row : ApiKeyRecord → ApiKeyRecord
inserted_row k = record k {
  deprecated_model_behavior =
      if str_eq k.deprecated_model_behavior []
      then lit "passthrough"
      else k.deprecated_model_behavior;
}

-- The INSERT of one key: a row with its identifier is overwritten, except for the time of its creation.
abbrev pub upsert_api_key : ApiKeyRecord → List ApiKeyRecord → List ApiKeyRecord
upsert_api_key k [] = inserted_row k ∷ []
upsert_api_key k (row ∷ rows) =
    let rest = upsert_api_key k rows in
    if row.id == k.id
    then record (inserted_row k) { created_at = row.created_at } ∷ rows
    else row ∷ rest

-- UpsertAPIKeys of internal/repositories/steward.go: the rows after it, and whether it succeeds. There is no
-- transaction: the rows that were written before an error stay. `exec_ok` says which statements the
-- database takes, by their number.
unfoldable pub upsert_api_keys :
    (ℕ → Bool) → ℕ → List ApiKeyRecord → List ApiKeyRecord → List ApiKeyRecord × Bool
upsert_api_keys exec_ok n [] rows = (rows, true)
upsert_api_keys exec_ok n (k ∷ keys) rows =
    let rest = upsert_api_keys exec_ok (n + 1) keys (upsert_api_key k rows) in
    if exec_ok n then rest else (rows, false)

-- The cursor of the syncer, and the table api_keys.
pub record State : Type 0 where
  pub cursor : ℕ
  pub stored : List ApiKeyRecord

-- What Sync leaves, and what it returns.
abbrev pub Synced : Type 0
Synced = State × Result SyncError (Unit {0})

abbrev pub after_upsert : State → ℕ → List ApiKeyRecord × Bool → Synced
after_upsert s new_cursor (rows, true) = (record { cursor = new_cursor; stored = rows }, ok tt)
after_upsert s new_cursor (rows, false) = (record s { stored = rows }, err upsert_failed)

-- What follows the fetch.
abbrev pub apply_keys : (ℕ → Bool) → State → Result SyncError (List ApiKeyRecord × ℕ) → Synced
apply_keys exec_ok s (ok ([], new_cursor)) = (s, ok tt)
apply_keys exec_ok s (ok (k ∷ keys, new_cursor)) =
    after_upsert s new_cursor (upsert_api_keys exec_ok 0 (k ∷ keys) s.stored)
apply_keys exec_ok s (err e) = (s, err e)
apply_keys exec_ok s panic = (s, panic)
apply_keys exec_ok s out_of_fuel = (s, out_of_fuel)

abbrev pub key_time : ApiKeyRecord → ℕ
key_time k = k.updated_at

unfoldable pub sync : ℕ → (ℕ → ℕ → Option (List ApiKeyRecord)) → (ℕ → Bool) → State → Synced
sync fuel butler exec_ok s = apply_keys exec_ok s (fetch key_time fuel butler 0 s.cursor [])
