-- ===== src/StewardClient/ProviderKeySync/Converted.antt =====
-- Which records a sync of provider keys stores.
use majordomo_steward.Prelude.{
  Option, none, some, List, [], ◌∷◌, Str, str_eq, ◌≡◌, refl, subst, Bool-cases, inl, inr,
  if◌then◌else◌,
}
use majordomo_steward.StewardClient.ProviderKeySync.{
  Payload, ProviderApiKey, append_record, encrypt_and_convert,
}

-- The payloads with a key.
abbrev pub with_key : List Payload → List Payload
with_key [] = []
with_key (p ∷ payloads) = if str_eq p.key [] then with_key payloads else p ∷ with_key payloads

module _ (encrypt : Str → Option Str) where
  -- A stored record of a payload: its key encrypted, and every other field as it was sent.
  abbrev pub IsRecordOf : Payload → ProviderApiKey → Type 0
  IsRecordOf p r =
      (encrypt p.key ≡ some r.encrypted_key)
      × (r.id ≡ p.id)
      × (r.user_id ≡ p.user_id)
      × (r.org_id ≡ p.org_id)
      × (r.provider ≡ p.provider)
      × (r.created_at ≡ p.created_at)
      × (r.updated_at ≡ p.updated_at)

  -- The records are those of the payloads, in order.
  abbrev pub Matches : List Payload → List ProviderApiKey → Type 0
  Matches [] [] = Unit
  Matches [] (r ∷ records) = ⊥
  Matches (p ∷ payloads) [] = ⊥
  Matches (p ∷ payloads) (r ∷ records) = IsRecordOf p r × Matches payloads records

  abbrev IfMatches : List Payload → Option (List ProviderApiKey) → Type 0
  IfMatches payloads none = Unit
  IfMatches payloads (some records) = Matches payloads records

  append_record-IfMatches :
      (p : Payload) (payloads : List Payload) (enc : Option Str)
      (rest : Option (List ProviderApiKey))
      → encrypt p.key ≡ enc
      → IfMatches payloads rest
      → IfMatches (p ∷ payloads) (append_record p enc rest)
  append_record-IfMatches p payloads none rest e h = tt
  append_record-IfMatches p payloads (some enc) none e h = tt
  append_record-IfMatches p payloads (some enc) (some records) e h =
      ((e, refl, refl, refl, refl, refl, refl), h)

  encrypt_and_convert-IfMatches :
      (payloads : List Payload)
      → IfMatches (with_key payloads) (encrypt_and_convert encrypt payloads)
  unfolding encrypt_and_convert
  encrypt_and_convert-IfMatches [] = tt
  encrypt_and_convert-IfMatches (p ∷ payloads) = elim (Bool-cases (str_eq p.key [])) [
    | inl blank ↦ rw blank (encrypt_and_convert-IfMatches payloads)
    | inr present ↦ rw present (
        append_record-IfMatches p (with_key payloads) (encrypt p.key)
          (encrypt_and_convert encrypt payloads) refl (encrypt_and_convert-IfMatches payloads))
  ]

  -- For every list of payloads: the records that encryptAndConvert returns are those of the payloads
  -- whose key is not empty, in order, each with the encryption of its key and the payload's other fields.
  pub encrypt_and_convert-Matches :
      (payloads : List Payload) (records : List ProviderApiKey)
      → encrypt_and_convert encrypt payloads ≡ some records
      → Matches (with_key payloads) records
  encrypt_and_convert-Matches payloads records h =
      subst (IfMatches (with_key payloads)) h (encrypt_and_convert-IfMatches payloads)
