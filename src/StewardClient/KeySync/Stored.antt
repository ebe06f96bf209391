-- ===== src/StewardClient/KeySync/Stored.antt =====
-- What a sync of API keys leaves in the table, row by row.
use majordomo_steward.Prelude.{
  ℕ, length, ◌+◌, ◌≤◌, ◌==◌, Bool, true, false, Option, none, some, List, [], ◌∷◌, ◌++◌, Str, lit,
  ◌≡◌, ◌⊎◌, if◌then◌else◌, ok, err, panic, out_of_fuel,
}
use majordomo_steward.StewardClient.KeySync.{fetch, ApiKeyRecord, State, Synced, key_time}
use majordomo_steward.StewardClient.KeySync.Watermark.{IsCovered}

-- The row of an identifier.
abbrev pub find_key : ℕ → List ApiKeyRecord → Option ApiKeyRecord
find_key id [] = none
find_key id (row ∷ rows) = if row.id == id then some row else find_key id rows

-- The behaviour for deprecated models, which has a default.
abbrev pub behavior_or_default : Str → Str
behavior_or_default [] = lit "passthrough"
behavior_or_default (c ∷ behavior) = c ∷ behavior

abbrev pub created_before : Option ApiKeyRecord → ℕ → ℕ
created_before none time = time
created_before (some row) time = row.created_at

-- The row of a key that was sent, where there was a row or none: every field is as it was sent, except
-- that the behaviour has a default and a row keeps the time of its creation.
abbrev pub row_after : ApiKeyRecord → Option ApiKeyRecord → ApiKeyRecord
row_after k before = record k {
  deprecated_model_behavior = behavior_or_default k.deprecated_model_behavior;
  created_at = created_before before k.created_at;
}

-- The row of an identifier after some keys, the last of which wins.
abbrev pub after_keys : ℕ → List ApiKeyRecord → Option ApiKeyRecord → Option ApiKeyRecord
after_keys id [] before = before
after_keys id (k ∷ keys) before =
    after_keys id keys (if k.id == id then some (row_after k before) else before)

-- The call stops at a statement that the database refuses, or it has written all keys.
abbrev IsStop : (ℕ → Bool) → ℕ → List ApiKeyRecord → Bool → Type 0
IsStop exec_ok n rest done = ((done ≡ false) × (exec_ok n ≡ false)) ⊎ ((done ≡ true) × (rest ≡ []))

-- The keys before the first statement that the database refuses are written, or all of them.
abbrev IsPrefix :
    (ℕ → Bool) → ℕ → List ApiKeyRecord → List ApiKeyRecord → List ApiKeyRecord × Bool → Type 0
IsPrefix exec_ok n keys before (rows, done) =
    (written rest : List ApiKeyRecord) × (keys ≡ written ++ rest)
    × IsStop exec_ok (n + length written) rest done
    × ((id : ℕ) → find_key id rows ≡ after_keys id written (find_key id before))

module _ (fuel : ℕ) (butler : ℕ → ℕ → Option (List ApiKeyRecord)) (s : State) where
  -- Fetching from the cursor gives some keys.
  abbrev pub Fetches : List ApiKeyRecord → ℕ → Type 0
  Fetches keys c = fetch key_time fuel butler 0 s.cursor [] ≡ ok (keys, c)

  -- Each row is the one that some keys leave.
  abbrev pub Holds : List ApiKeyRecord → State → Type 0
  Holds keys t = (id : ℕ) → find_key id t.stored ≡ after_keys id keys (find_key id s.stored)

  -- What a sync leaves. Without an error: all keys that were fetched, with the cursor at or after the time
  -- of each of them and not before where it was. With an error: the cursor where it was, and the keys
  -- before a statement that was refused, or none where fetching gave the error.
  abbrev pub Syncs : (ℕ → Bool) → Synced → Type 0
  Syncs exec_ok (t, ok u) =
      (keys : List ApiKeyRecord) × (c : ℕ) × Fetches keys c
      × (s.cursor ≤ t.cursor)
      × IsCovered key_time t.cursor keys
      × Holds keys t
  Syncs exec_ok (t, err e) =
      (t.cursor ≡ s.cursor)
      × (written : List ApiKeyRecord) × (rest : List ApiKeyRecord) × (c : ℕ) × ((Fetches
              (written ++ rest) c
            × (exec_ok (length written) ≡ false))
          ⊎ ((fetch key_time fuel butler 0 s.cursor [] ≡ err e) × (written ≡ [])))
      × Holds written t
  Syncs exec_ok (t, panic) = t ≡ s
  Syncs exec_ok (t, out_of_fuel) = t ≡ s
