-- ===== src/Provider/BedrockPath.antt =====
-- ExtractBedrockModelFromPath of internal/provider/bedrock.go.
pub mod Laws
use majordomo_steward.Prelude.{
  ℕ, suc, ◌+◌, Str, lit, Option, none, some, List, [], ◌∷◌, ◌&&◌, ◌==◌, ltb, has_prefix, drop, take,
  length, if◌then◌else◌,
}

-- strings.LastIndex(s, sub), with `none` for -1.
abbrev pub last_index : Str → Str → Option ℕ
last_index [] sub = if has_prefix [] sub then some 0 else none
last_index (x ∷ xs) sub = elim (last_index xs sub) [
  | some i ↦ some (suc i)
  | none ↦ if has_prefix (x ∷ xs) sub then some 0 else none
]

-- One round of the loop over the suffixes: the model, where the suffix ends `rest` and something
-- stands before it.
unfoldable pub cut_suffix : Str → Str → Option Str
cut_suffix rest suffix = elim (last_index rest suffix) [
  | none ↦ none
  | some idx ↦
      if ltb 0 idx && (idx + length suffix == length rest) then some (take idx rest) else none
]

-- The loop over the two suffixes.
unfoldable pub cut_suffixes : Str → Str
cut_suffixes rest = elim (cut_suffix rest (lit "/converse-stream")) [
  | some model ↦ model
  | none ↦ elim (cut_suffix rest (lit "/converse")) [ some model ↦ model | none ↦ [] ]
]

-- The result "" of the source is `[]`.
unfoldable pub extract_bedrock_model_from_path : Str → Str
extract_bedrock_model_from_path path =
    if has_prefix path (lit "/model/")
    then cut_suffixes (drop (length (lit "/model/")) path)
    else []
