-- ===== src/StewardClient/ProviderKeySync.antt =====
-- internal/stewardclient/providerkeysync.go: one Sync of provider keys. Encryption is a parameter, none
-- where it fails.
pub mod Converted
use majordomo_steward.Prelude.{
  ℕ, Bool, true, false, Option, none, some, List, [], ◌∷◌, ◌++◌, ◌==◌, map, Str, str_eq, ◌≡◌, refl,
  ap, Bool-cases, inl, inr, if◌then◌else◌, Result, ok, err, ◌∙◌,
}

-- providerKeyPayload
pub record Payload : Type 0 where
  pub id : ℕ
  pub user_id : Option ℕ
  pub org_id : Option ℕ
  pub provider : Str
  pub key : Str
  pub created_at : ℕ
  pub updated_at : ℕ

-- models.ProviderAPIKey
pub record ProviderApiKey : Type 0 where
  pub id : ℕ
  pub user_id : Option ℕ
  pub org_id : Option ℕ
  pub provider : Str
  pub encrypted_key : Str
  pub created_at : ℕ
  pub updated_at : ℕ

pub data ProviderSyncError : Type 0 where
  fetching encrypting upserting : ProviderSyncError

abbrev pub fetch_payloads : Option (ℕ × Option (List Payload)) → Option (List Payload)
fetch_payloads none = none
fetch_payloads (some (status, body)) = if status == 200 then body else none

abbrev pub convert_payload : Payload → Str → ProviderApiKey
convert_payload p enc = record {
  id = p.id;
  user_id = p.user_id;
  org_id = p.org_id;
  provider = p.provider;
  encrypted_key = enc;
  created_at = p.created_at;
  updated_at = p.updated_at;
}

-- The record of a payload, once it is encrypted, before those of the rest.
abbrev pub append_record :
    Payload → Option Str → Option (List ProviderApiKey) → Option (List ProviderApiKey)
append_record p none rest = none
append_record p (some enc) none = none
append_record p (some enc) (some records) = some (convert_payload p enc ∷ records)

module _ (encrypt : Str → Option Str) where
  -- The loop over the payloads. An error of a later payload is an error of the whole, as in the code.
  unfoldable pub encrypt_and_convert : List Payload → Option (List ProviderApiKey)
  encrypt_and_convert [] = some []
  encrypt_and_convert (p ∷ payloads) =
      let rest = encrypt_and_convert payloads in
      if str_eq p.key [] then rest else append_record p (encrypt p.key) rest

  -- What UpsertBatch is called with, and whether the call succeeds; without records it is not called.
  abbrev pub upsert_batch :
      Bool
      → List ProviderApiKey
      → Option (List ProviderApiKey)
      → Result ProviderSyncError (List ProviderApiKey)
  upsert_batch upserted stored none = err encrypting
  upsert_batch upserted stored (some []) = ok stored
  upsert_batch true stored (some (r ∷ records)) = ok (stored ++ (r ∷ records))
  upsert_batch false stored (some (r ∷ records)) = err upserting

  abbrev pub apply_payloads :
      Bool
      → List ProviderApiKey
      → Option (List Payload)
      → Result ProviderSyncError (List ProviderApiKey)
  apply_payloads upserted stored none = err fetching
  apply_payloads upserted stored (some payloads) =
      upsert_batch upserted stored (encrypt_and_convert payloads)

  -- The records upserted before and in this sync, in order.
  unfoldable pub sync_provider_keys_once :
      Option (ℕ × Option (List Payload))
      → Bool
      → List ProviderApiKey
      → Result ProviderSyncError (List ProviderApiKey)
  sync_provider_keys_once answer upserted stored =
      apply_payloads upserted stored (fetch_payloads answer)
