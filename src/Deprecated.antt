-- ===== src/Deprecated.antt =====
-- internal/deprecated/service.go: the map from deprecated models to their replacements.
pub mod Tests
use majordomo_steward.Prelude.{
  Bool, true, false, Option, none, some, List, [], ◌∷◌, Str, lit, str_eq, str_eq_sound, str_eq_refl,
  lookup, ◌≡◌, refl, sym, ap, ◌∙◌, Bool-cases, inl, inr, arith, if◌then◌else◌,
}

-- `for k, v := range raw { if k == "_comment" { continue }; s.models[k] = v }`, over the entries of the
-- decoded map in some order.
unfoldable pub keep_models : List (Str × Str) → List (Str × Str)
keep_models [] = []
keep_models ((k, v) ∷ raw) =
    if str_eq k (lit "_comment") then keep_models raw else (k, v) ∷ keep_models raw

-- The map of NewService: `file` is what os.ReadFile and json.Unmarshal give, none where one fails.
abbrev pub models_of : Option (List (Str × Str)) → List (Str × Str)
models_of none = []
models_of (some raw) = keep_models raw

unfoldable pub new_service : Str → Option (List (Str × Str)) → List (Str × Str)
new_service file_path file = if str_eq file_path [] then [] else models_of file

-- Lookup
abbrev pub replacement_of : List (Str × Str) → Str → Option Str
replacement_of models model = lookup model models

-- What a file says of a model: nothing of the key "_comment", and nothing if it was not decoded.
abbrev pub said_of : Str → Option (List (Str × Str)) → Option Str
said_of model none = none
said_of model (some raw) = if str_eq model (lit "_comment") then none else lookup model raw

lookup-keep_models :
    (model : Str) (raw : List (Str × Str))
    → lookup model (keep_models raw) ≡ said_of model (some raw)
unfolding keep_models
lookup-keep_models model [] = elim (Bool-cases (str_eq model (lit "_comment"))) [
  | inl comment ↦ rw comment refl
  | inr other ↦ rw other refl
]
lookup-keep_models model ((k, v) ∷ raw) = elim (Bool-cases (str_eq k model)) [
  | inl same ↦ elim (Bool-cases (str_eq k (lit "_comment"))) [
    | inl comment ↦
        rw
          (comment, sym (ap (λ m. str_eq m (lit "_comment")) (str_eq_sound k model same)) ∙ comment)
          (lookup-keep_models model raw
            ∙ rw (sym (ap (λ m. str_eq m (lit "_comment")) (str_eq_sound k model same)) ∙ comment)
                refl)
    | inr kept ↦
        rw
          (kept, sym (ap (λ m. str_eq m (lit "_comment")) (str_eq_sound k model same)) ∙ kept, same)
          refl
  ]
  | inr other ↦ elim (Bool-cases (str_eq k (lit "_comment"))) [
    | inl comment ↦ rw (comment, other) (lookup-keep_models model raw)
    | inr kept ↦ rw (kept, other) (lookup-keep_models model raw)
  ]
]

-- For every model, path and file: the service has a replacement exactly as the file says, "_comment"
-- left out, and none if the path is empty or the file is not decoded.
replacement_of-new_service :
    (model file_path : Str) (file : Option (List (Str × Str)))
    → replacement_of (new_service file_path file) model
      ≡ (if str_eq file_path [] then none else said_of model file)
unfolding new_service
replacement_of-new_service model [] file = refl
replacement_of-new_service model (c ∷ file_path) none = refl
replacement_of-new_service model (c ∷ file_path) (some raw) = lookup-keep_models model raw
