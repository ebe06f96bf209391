-- ===== src/Provider/Streaming.antt =====
-- ParseResponse and parseStreamingResponse of internal/provider/{anthropic,openai,gemini,bedrock}.go.
-- encoding/json and bufio.Scanner are parameters: functions from a text to what it decodes to, none
-- where that is an error, and from a body to the lines that the scanner returns: those before the first one
-- over its limit of 64 KiB, for its error is not read.
pub mod Events
use majordomo_steward.Prelude.{
  ℕ, Bool, true, false, ◌||◌, ◌==◌, Option, none, some, List, [], ◌∷◌, Str, lit, str_eq, has_prefix,
  trim_prefix, if◌then◌else◌, Result, ok, err, ◌>>=◌,
}
use majordomo_steward.Prelude.Int.{ℤ, pos, ◌+ℤ◌}
use majordomo_steward.Provider.{anthropic, openai, gemini}
use majordomo_steward.Provider.Metrics.{
  UsageMetrics, empty_metrics, AnthropicUsage, build_metrics, build_bedrock_metrics, OpenaiUsage,
  build_openai_metrics, GeminiUsage, build_gemini_metrics,
}
use majordomo_steward.Provider.EventStream.{
  BedrockUsage, FrameError, is_event_stream_response, parse_event_stream_response,
}

-- bytes.TrimLeft(body, " \t\r\n")
abbrev pub trim_left : Str → Str
trim_left [] = []
trim_left (c ∷ body) = if c == 32 || c == 9 || c == 13 || c == 10 then trim_left body else c ∷ body

unfoldable pub is_sse_response : Str → Bool
is_sse_response body =
    has_prefix (trim_left body) (lit "event:") || has_prefix (trim_left body) (lit "data:")

-- The variables of the loop over the lines of an Anthropic stream.
pub record AnthropicScan : Type 0 where
  pub current_event : Str
  pub model : Str
  pub input_tokens : ℤ
  pub output_tokens : ℤ
  pub cache_read_tokens : ℤ
  pub cache_creation_tokens : ℤ

abbrev pub no_events : AnthropicScan
no_events = record {
  current_event = [];
  model = [];
  input_tokens = pos 0;
  output_tokens = pos 0;
  cache_read_tokens = pos 0;
  cache_creation_tokens = pos 0;
}

module _ (message_start : Str → Option (Str × AnthropicUsage))
    (message_delta : Str → Option ℤ) where
  abbrev pub on_start : Option (Str × AnthropicUsage) → AnthropicScan → AnthropicScan
  on_start none s = s
  on_start (some (model, usage)) s = record s {
    model = model;
    input_tokens = usage.input_tokens;
    cache_read_tokens = usage.cache_read_input_tokens;
    cache_creation_tokens = usage.cache_creation_input_tokens;
  }

  abbrev pub on_delta : Option ℤ → AnthropicScan → AnthropicScan
  on_delta none s = s
  on_delta (some tokens) s = record s { output_tokens = tokens }

  -- `switch currentEvent`
  abbrev pub on_data : Str → AnthropicScan → AnthropicScan
  on_data text s =
      if str_eq s.current_event (lit "message_start")
      then on_start (message_start text) s
      else if str_eq s.current_event (lit "message_delta")
      then on_delta (message_delta text) s
      else s

  unfoldable pub scan_line : Str → AnthropicScan → AnthropicScan
  scan_line line s =
      if has_prefix line (lit "event: ")
      then record s { current_event = trim_prefix line (lit "event: ") }
      else if has_prefix line (lit "data: ")
      then on_data (trim_prefix line (lit "data: ")) s
      else s

  unfoldable pub scan_lines : List Str → AnthropicScan → AnthropicScan
  scan_lines [] s = s
  scan_lines (line ∷ lines) s = scan_lines lines (scan_line line s)

  abbrev pub scanned : AnthropicScan → UsageMetrics
  scanned s = record {
    provider = anthropic;
    model = s.model;
    input_tokens = s.input_tokens +ℤ s.cache_read_tokens +ℤ s.cache_creation_tokens;
    output_tokens = s.output_tokens;
    cached_tokens = s.cache_read_tokens;
    cache_creation_tokens = s.cache_creation_tokens;
  }

  unfoldable pub parse_anthropic_stream : List Str → UsageMetrics
  parse_anthropic_stream lines = scanned (scan_lines lines no_events)

  -- none is the error of json.Unmarshal.
  abbrev pub anthropic_metrics : Option (Str × AnthropicUsage) → Option UsageMetrics
  anthropic_metrics none = none
  anthropic_metrics (some (model, usage)) = some (build_metrics model usage)

  unfoldable pub parse_anthropic :
      (Str → List Str) → (Str → Option (Str × AnthropicUsage)) → Str → Option UsageMetrics
  parse_anthropic split unmarshal body =
      if is_sse_response body
      then some (parse_anthropic_stream (split body))
      else anthropic_metrics (unmarshal body)

-- What a chunk of an OpenAI stream decodes to: a model, whether its usage is an object, and the nested
-- response, if there is one.
pub record Chunk : Type 0 where
  pub chunk_model : Str
  pub has_usage : Bool
  pub response : Option Str

pub record OpenaiScan : Type 0 where
  pub last_model : Str
  pub usage_chunk : Option Str

module _ (peek : Str → Option Chunk) (unmarshal : Str → Option (Str × OpenaiUsage)) where
  -- `if m != "" { lastModel = m }; if usage … { usageChunk = text }`
  abbrev pub note : Str → Bool → Str → OpenaiScan → OpenaiScan
  note model usage text s = record {
    last_model = if str_eq model [] then s.last_model else model;
    usage_chunk = if usage then some text else s.usage_chunk;
  }

  -- The nested response is decoded by the fields that it shares with a chunk.
  abbrev pub note_nested : Str → Option Chunk → OpenaiScan → OpenaiScan
  note_nested text none s = s
  note_nested text (some nested) s = note nested.chunk_model nested.has_usage text s

  abbrev pub note_response : Option Str → OpenaiScan → OpenaiScan
  note_response none s = s
  note_response (some text) s = note_nested text (peek text) s

  abbrev pub note_chunk : Str → Option Chunk → OpenaiScan → OpenaiScan
  note_chunk text none s = s
  note_chunk text (some chunk) s =
      note_response chunk.response (note chunk.chunk_model chunk.has_usage text s)

  unfoldable pub read_chunk : Str → OpenaiScan → OpenaiScan
  read_chunk line s =
      if has_prefix line (lit "data: ")
      then (let text = trim_prefix line (lit "data: ") in
          if str_eq text (lit "[DONE]") then s else note_chunk text (peek text) s)
      else s

  unfoldable pub read_chunks : List Str → OpenaiScan → OpenaiScan
  read_chunks [] s = s
  read_chunks (line ∷ lines) s = read_chunks lines (read_chunk line s)

  abbrev pub decoded_or : Str → Option (Str × OpenaiUsage) → UsageMetrics
  decoded_or model none = empty_metrics openai model
  decoded_or model (some (chunk_model, usage)) = build_openai_metrics chunk_model usage

  abbrev pub summed_up : Str → Option Str → UsageMetrics
  summed_up model none = empty_metrics openai model
  summed_up model (some text) = decoded_or model (unmarshal text)

  unfoldable pub parse_openai_stream : List Str → UsageMetrics
  parse_openai_stream lines =
      let s = read_chunks lines (record { last_model = []; usage_chunk = none }) in
      summed_up s.last_model s.usage_chunk

  abbrev pub openai_metrics : Option (Str × OpenaiUsage) → Option UsageMetrics
  openai_metrics none = none
  openai_metrics (some (model, usage)) = some (build_openai_metrics model usage)

  unfoldable pub parse_openai : (Str → List Str) → Str → Option UsageMetrics
  parse_openai split body =
      if is_sse_response body
      then some (parse_openai_stream (split body))
      else openai_metrics (unmarshal body)

abbrev pub last_chunk : (Str × GeminiUsage) → List (Str × GeminiUsage) → UsageMetrics
last_chunk (model, usage) [] = build_gemini_metrics model usage
last_chunk chunk (next ∷ chunks) = last_chunk next chunks

abbrev pub gemini_stream_metrics : Option (List (Str × GeminiUsage)) → Option UsageMetrics
gemini_stream_metrics none = none
gemini_stream_metrics (some []) = some (empty_metrics gemini [])
gemini_stream_metrics (some (chunk ∷ chunks)) = some (last_chunk chunk chunks)

abbrev pub gemini_metrics : Option (Str × GeminiUsage) → Option UsageMetrics
gemini_metrics none = none
gemini_metrics (some (model, usage)) = some (build_gemini_metrics model usage)

unfoldable pub parse_gemini :
    (Str → Option (List (Str × GeminiUsage)))
    → (Str → Option (Str × GeminiUsage))
    → Str
    → Option UsageMetrics
parse_gemini unmarshal_chunks unmarshal body =
    if has_prefix (trim_left body) (lit "[")
    then gemini_stream_metrics (unmarshal_chunks (trim_left body))
    else gemini_metrics (unmarshal body)
