-- ===== src/Provider/Metrics.antt =====
-- The usage of one response: models.UsageMetrics, and the builders of internal/provider that put
-- the providers' counts under one convention. Token counts are Go's `int`.
pub mod Laws
use majordomo_steward.Prelude.{ℕ, Str, lit, Bool, ◌||◌, [], if◌then◌else◌}
use majordomo_steward.Prelude.Int.{ℤ, pos, ◌+ℤ◌, ltb_ℤ}
use majordomo_steward.Provider.{Provider, openai, anthropic, gemini, bedrock}

-- The time of the response is set by the handler and is not part of what a parser builds.
pub record UsageMetrics : Type 0 where
  pub provider : Provider
  pub model : Str
  pub input_tokens : ℤ
  pub output_tokens : ℤ
  pub cached_tokens : ℤ
  pub cache_creation_tokens : ℤ

abbrev pub empty_metrics : Provider → Str → UsageMetrics
empty_metrics p model = record {
  provider = p;
  model = model;
  input_tokens = pos 0;
  output_tokens = pos 0;
  cached_tokens = pos 0;
  cache_creation_tokens = pos 0;
}

-- The `usage` object of anthropicResponse
pub record AnthropicUsage : Type 0 where
  pub input_tokens : ℤ
  pub output_tokens : ℤ
  pub cache_read_input_tokens : ℤ
  pub cache_creation_input_tokens : ℤ

-- buildMetrics of anthropic.go
unfoldable pub build_metrics : Str → AnthropicUsage → UsageMetrics
build_metrics model u = record {
  provider = anthropic;
  model = model;
  input_tokens = u.input_tokens +ℤ u.cache_read_input_tokens +ℤ u.cache_creation_input_tokens;
  output_tokens = u.output_tokens;
  cached_tokens = u.cache_read_input_tokens;
  cache_creation_tokens = u.cache_creation_input_tokens;
}

-- buildBedrockMetrics of bedrock.go
unfoldable pub build_bedrock_metrics : ℤ → ℤ → ℤ → ℤ → UsageMetrics
build_bedrock_metrics input output cache_read cache_write = record {
  provider = bedrock;
  model = [];
  input_tokens = input +ℤ cache_read +ℤ cache_write;
  output_tokens = output;
  cached_tokens = cache_read;
  cache_creation_tokens = cache_write;
}

-- The `usage` object of openAIResponse: the fields of both API formats.
pub record OpenaiUsage : Type 0 where
  pub prompt_tokens : ℤ
  pub completion_tokens : ℤ
  pub prompt_cached_tokens : ℤ
  pub input_tokens : ℤ
  pub output_tokens : ℤ
  pub input_cached_tokens : ℤ

-- buildOpenAIMetrics of openai.go
unfoldable pub build_openai_metrics : Str → OpenaiUsage → UsageMetrics
build_openai_metrics model u =
    let responses_api = ltb_ℤ (pos 0) u.input_tokens || ltb_ℤ (pos 0) u.output_tokens in
    record {
      provider = openai;
      model = model;
      input_tokens = if responses_api then u.input_tokens else u.prompt_tokens;
      output_tokens = if responses_api then u.output_tokens else u.completion_tokens;
      cached_tokens = if responses_api then u.input_cached_tokens else u.prompt_cached_tokens;
      cache_creation_tokens = pos 0;
    }

-- The `usageMetadata` object of geminiResponse
pub record GeminiUsage : Type 0 where
  pub prompt_token_count : ℤ
  pub candidates_token_count : ℤ
  pub cached_content_token_count : ℤ

-- buildGeminiMetrics of gemini.go
unfoldable pub build_gemini_metrics : Str → GeminiUsage → UsageMetrics
build_gemini_metrics model_version u = record {
  provider = gemini;
  model = model_version;
  input_tokens = u.prompt_token_count;
  output_tokens = u.candidates_token_count;
  cached_tokens = u.cached_content_token_count;
  cache_creation_tokens = pos 0;
}
