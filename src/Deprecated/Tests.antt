-- ===== src/Deprecated/Tests.antt =====
-- A run of the model of internal/deprecated.
use majordomo_steward.Prelude.{some, Option, List, [], ◌∷◌, Str, lit, ◌≡◌, refl}
use majordomo_steward.Deprecated.{new_service, keep_models, replacement_of}

abbrev models_file : Option (List (Str × Str))
models_file = some ((lit "_comment", lit "a note") ∷ (lit "claude-2", lit "claude-3") ∷ [])

replacement_of-claude :
    replacement_of (new_service (lit "models.json") models_file) (lit "claude-2")
    ≡ some (lit "claude-3")
unfolding new_service keep_models
replacement_of-claude = refl
