-- ===== src/Proxy/Experiment/Override.antt =====
-- OverrideModel of internal/proxy/experimentrouter.go: the body of a request with another model.
-- encoding/json is a parameter.
use majordomo_steward.Prelude.{
  Option, none, some, List, ◌∷◌, Str, lit, Result, ok, err, panic, ◌≡◌, ◌≢◌, refl, ◌↔◌, arith,
}

-- A map[string]json.RawMessage: nil, or the entries, the newest first.
abbrev pub RawObject : Type 0
RawObject = Option (List (Str × Str))

-- What json.Unmarshal gives for a map (none for an error), and json.Marshal of a text and of a map.
-- Decoding `null` leaves the map nil.
pub record ObjectJson : Type 0 where
  pub decode_object : Str → Option RawObject
  pub encode_text : Str → Str
  pub encode_object : List (Str × Str) → Option Str

abbrev pub or_error : Option Str → Result (Unit {0}) Str
or_error none = err tt
or_error (some body) = ok body

-- `req["model"] = json.RawMessage(modelJSON)`, which panics on a nil map, and the encoding.
abbrev pub with_new_model : ObjectJson → Str → Option RawObject → Result (Unit {0}) Str
with_new_model json new_model none = err tt
with_new_model json new_model (some none) = panic
with_new_model json new_model (some (some req)) =
    or_error (json.encode_object ((lit "model", json.encode_text new_model) ∷ req))

unfoldable pub override_model : ObjectJson → Str → Str → Result (Unit {0}) Str
override_model json body new_model = with_new_model json new_model (json.decode_object body)

-- Replacing the model of a body panics exactly when the body decodes to a nil map, as `null` does.
override_model-panic_iff :
    (json : ObjectJson) (body new_model : Str)
    → (override_model json body new_model ≡ panic) ↔ (json.decode_object body ≡ some none)
unfolding override_model
override_model-panic_iff json body new_model = split_on (json.decode_object body)
  where
    never : (o : Option Str) → or_error o ≢ panic
    never none h = cc
    never (some b) h = cc

    split_on : (o : Option RawObject) → (with_new_model json new_model o ≡ panic) ↔ (o ≡ some none)
    split_on none = ground arith
    split_on (some none) = (λ h. refl, λ h. refl)
    split_on (some (some req)) = (
      λ h. absurd (never (json.encode_object ((lit "model", json.encode_text new_model) ∷ req)) h),
      λ h. absurd (cc),
    )
