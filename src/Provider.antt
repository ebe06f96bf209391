-- ===== src/Provider.antt =====
-- internal/provider/provider.go: which provider a request goes to, and the canonical request path.
pub mod Paths
pub mod BedrockPath
pub mod Metrics
pub mod EventStream
pub mod Streaming
pub mod Translator
pub mod Tests
use majordomo_steward.Prelude.{
  Str, lit, Bool, false, true, Option, none, some, List, [], ◌∷◌, ◌++◌, ◌&&◌, ◌||◌, String, ◌≡◌,
  refl, str_eq, has_prefix, has_suffix, contains, to_lower, if◌then◌else◌,
}

pub data Provider : Type 0 where
  openai anthropic gemini gemini_openai anthropic_openai azure : Provider
  bedrock fireworks together bedrock_mantle unknown : Provider

-- The string constants of the type `Provider`.
abbrev pub provider_name : Provider → Str
provider_name openai = lit "openai"
provider_name anthropic = lit "anthropic"
provider_name gemini = lit "gemini"
provider_name gemini_openai = lit "gemini-openai"
provider_name anthropic_openai = lit "anthropic-openai"
provider_name azure = lit "azure"
provider_name bedrock = lit "bedrock"
provider_name fireworks = lit "fireworks"
provider_name together = lit "together"
provider_name bedrock_mantle = lit "bedrock-mantle"
provider_name unknown = lit "unknown"

pub record ProviderInfo : Type 0 where
  pub provider : Provider
  pub base_url : Str

abbrev info : Provider → String → ProviderInfo
info p url = record { provider = p; base_url = lit url }

-- The cases of the switch in its order; a missing case is `unknown`.
unfoldable pub resolve_explicit_provider : Str → ProviderInfo
resolve_explicit_provider name =
    let n = to_lower name in
    if str_eq n (provider_name openai)
    then info openai "https://api.openai.com"
    else if str_eq n (provider_name anthropic)
    then info anthropic "https://api.anthropic.com"
    else if str_eq n (provider_name gemini)
    then info gemini "https://generativelanguage.googleapis.com"
    else if str_eq n (provider_name gemini_openai)
    then info gemini_openai "https://generativelanguage.googleapis.com/v1beta/openai"
    else if str_eq n (provider_name anthropic_openai)
    then info anthropic_openai "https://api.anthropic.com"
    else if str_eq n (provider_name azure)
    then info azure ""
    else if str_eq n (provider_name bedrock)
    then info bedrock ""
    else if str_eq n (provider_name fireworks)
    then info fireworks "https://api.fireworks.ai/inference"
    else if str_eq n (provider_name together)
    then info together "https://api.together.xyz"
    else if str_eq n (provider_name bedrock_mantle)
    then info bedrock_mantle ""
    else info unknown ""

unfoldable pub detect_from_path : Str → ProviderInfo
detect_from_path path =
    if has_prefix path (lit "/v1/chat/completions")
      || has_prefix path (lit "/v1/completions")
      || has_prefix path (lit "/v1/embeddings")
      || has_prefix path (lit "/v1/responses")
    then info openai "https://api.openai.com"
    else if has_prefix path (lit "/v1/messages")
    then info anthropic "https://api.anthropic.com"
    else if contains path (lit "generateContent") || contains path (lit "streamGenerateContent")
    then info gemini "https://generativelanguage.googleapis.com"
    else if has_prefix path (lit "/model/")
        && (has_suffix path (lit "/converse") || has_suffix path (lit "/converse-stream"))
    then info bedrock ""
    else info unknown ""

-- `header` is the lookup `headers["x-majordomo-provider"]`.
unfoldable pub detect : Str → Option Str → ProviderInfo
unfolding resolve_explicit_provider detect_from_path
detect path (some explicit) = resolve_explicit_provider explicit
detect path none = detect_from_path path

abbrev pub openai_suffixes : List Str
openai_suffixes =
    lit "/chat/completions" ∷ lit "/completions" ∷ lit "/embeddings" ∷ lit "/responses" ∷ []

-- The loop over the suffixes, as a test of the whole list.
abbrev pub matches_suffix : Str → List Str → Bool
matches_suffix path [] = false
matches_suffix path (suffix ∷ rest) =
    str_eq path suffix || has_prefix path (suffix ++ lit "/") || matches_suffix path rest

unfoldable pub normalize_openai_path : Str → Str
normalize_openai_path path = if matches_suffix path openai_suffixes then lit "/v1" ++ path else path

-- The parsers of `GetParser`, by name.
pub data Parser : Type 0 where
  openai_parser anthropic_parser gemini_parser bedrock_parser : Parser

unfoldable pub get_parser : Provider → Parser
get_parser anthropic = anthropic_parser
get_parser bedrock_mantle = anthropic_parser
get_parser gemini = gemini_parser
get_parser bedrock = bedrock_parser
get_parser _ = openai_parser

-- IsTranslationRequired of translator.go
unfoldable pub is_translation_required : Provider → Bool
is_translation_required anthropic_openai = true
is_translation_required _ = false
