-- ===== src/Provider/Tests.antt =====
-- Runs of the models of internal/provider, and the theorems at them.
use majordomo_steward.Prelude.Int.{ℤ}
use majordomo_steward.Provider.Metrics.{AnthropicUsage, build_metrics}
use majordomo_steward.Provider.Translator.{OpenaiRequest, to_anthropic}
use majordomo_steward.Provider.Translator.Messages.{to_anthropic-last_system}
use majordomo_steward.Provider.Streaming.{parse_anthropic}
use majordomo_steward.Provider.Streaming.Events.{
  lines_of, stream_of, body_of, IsLine, stream-build_metrics,
}
use majordomo_steward.Prelude.{ℕ, ◌==◌, ap, ◌∙◌, All, List, if◌then◌else◌, false}
use majordomo_steward.Prelude.{
  Str, lit, Option, none, some, [], ◌∷◌, ◌++◌, ◌≡◌, refl, ◌⊎◌, ◌↔◌, length, Returns, ok, arith,
}
use majordomo_steward.Prelude.Int.{pos, ◌+ℤ◌}
use majordomo_steward.Provider.Metrics.{build_bedrock_metrics}
use majordomo_steward.Provider.{normalize_openai_path}
use majordomo_steward.Provider.BedrockPath.{
  extract_bedrock_model_from_path, cut_suffixes, cut_suffix,
}
use majordomo_steward.Provider.BedrockPath.Laws.{extract_iff, invocation}
use majordomo_steward.Provider.EventStream.{BedrockUsage, parse_event_stream_response, metrics_of}
use majordomo_steward.Provider.EventStream.Bounds.{parse_event_stream_response-Returns}
use majordomo_steward.Provider.EventStream.RoundTrip.{Frame, IsFrame, encode_all, parse-encode_all}

abbrev chat_path : Str
chat_path = lit "/chat/completions"

normalize-chat : normalize_openai_path chat_path ≡ lit "/v1/chat/completions"
unfolding normalize_openai_path
normalize-chat = refl

abbrev nova : Str
nova = lit "nova"

abbrev nova_path : Str
nova_path = lit "/model/nova/converse"

extract-nova : extract_bedrock_model_from_path nova_path ≡ nova
unfolding extract_bedrock_model_from_path cut_suffixes cut_suffix
extract-nova = refl

extract_iff_example : (extract_bedrock_model_from_path nova_path ≡ nova) ↔ (
    (nova_path ≡ invocation nova (lit "/converse"))
    ⊎ (nova_path ≡ invocation nova (lit "/converse-stream")))
extract_iff_example = extract_iff nova_path nova (λ e. cc)

-- A decoder that finds in any payload as many input tokens as it has bytes.
abbrev count_bytes : Str → Option BedrockUsage
count_bytes payload = some (record {
  input_tokens = pos (length payload);
  output_tokens = pos 7;
  cache_read_input_tokens = pos 0;
  cache_write_input_tokens = pos 0;
})

abbrev short_body : Str
short_body = lit "sixteen bytes and more"

parse_event_stream_response-Returns_example :
    Returns (parse_event_stream_response count_bytes short_body)
parse_event_stream_response-Returns_example =
    parse_event_stream_response-Returns count_bytes short_body

abbrev first_frame : Frame
first_frame = record {
  prelude_crc = lit "crc1";
  headers = lit "hd";
  payload = lit "payload";
  message_crc = lit "crc2";
}

first_frame-IsFrame : IsFrame first_frame
first_frame-IsFrame = record {
  prelude_crc_size = refl;
  message_crc_size = refl;
  fits = omega arith;
}

-- A second frame, whose usage replaces that of the first.
abbrev second_frame : Frame
second_frame = record first_frame { payload = lit "more" }

second_frame-IsFrame : IsFrame second_frame
second_frame-IsFrame = record {
  prelude_crc_size = refl;
  message_crc_size = refl;
  fits = omega arith;
}

parse-encode_all_example :
    parse_event_stream_response count_bytes
      (encode_all (first_frame ∷ second_frame ∷ []) ++ lit "end")
    ≡ ok (metrics_of (count_bytes (lit "more")))
unfolding ◌+ℤ◌ build_bedrock_metrics
parse-encode_all_example =
    parse-encode_all count_bytes (first_frame ∷ second_frame ∷ []) (lit "end")
      (first_frame-IsFrame, (second_frame-IsFrame, tt)) (omega arith)

abbrev small_usage : AnthropicUsage
small_usage = record {
  input_tokens = pos 12;
  output_tokens = pos 1;
  cache_read_input_tokens = pos 4;
  cache_creation_input_tokens = pos 2;
}

-- Decoders that know one text each.
abbrev decode_start : Str → Option (Str × AnthropicUsage)
decode_start text = some (lit "claude", small_usage)

abbrev decode_delta : Str → Option ℤ
decode_delta text = some (pos 9)

-- A scanner without a limit.
abbrev add_first : ℕ → List Str → List Str
add_first c [] = (c ∷ []) ∷ []
add_first c (line ∷ lines) = (c ∷ line) ∷ lines

abbrev split_lines : Str → List Str
split_lines [] = []
split_lines (c ∷ s) = let rest = split_lines s in if c == 10 then [] ∷ rest else add_first c rest

split_lines-first :
    (line rest : Str)
    → All (λ c. ((c == 10) ≡ false) × ((c == 13) ≡ false)) line
    → split_lines (line ++ (10 ∷ rest)) ≡ line ∷ split_lines rest
split_lines-first [] rest h = refl
split_lines-first (c ∷ line) rest h = rw h.0.0 (ap (add_first c) (split_lines-first line rest h.1))

split_lines-body_of : (lines : List Str) → All IsLine lines → split_lines (body_of lines) ≡ lines
split_lines-body_of [] h = refl
split_lines-body_of (line ∷ lines) h =
    split_lines-first line (body_of lines) h.0.0
    ∙ ap (λ (l : List Str). line ∷ l) (split_lines-body_of lines h.1)

abbrev short_stream : List (Str × Str)
short_stream = stream_of [] (lit "a") ((lit "ping", lit "b") ∷ []) (lit "c") []

short_stream-lines : All IsLine (lines_of short_stream)
short_stream-lines = ground arith

stream-build_metrics_example :
    parse_anthropic decode_start decode_delta split_lines
      (λ s. none)
      (body_of (lines_of short_stream))
    ≡ some (build_metrics (lit "claude") (record small_usage { output_tokens = pos 9 }))
stream-build_metrics_example =
    stream-build_metrics decode_start decode_delta split_lines (λ s. none) []
      ((lit "ping", lit "b") ∷ []) [] (lit "a") (lit "c") (lit "claude") small_usage (pos 9)
      split_lines-body_of short_stream-lines tt ((refl, refl), tt) tt refl refl

abbrev chat : OpenaiRequest Unit
chat = record {
  model = lit "claude";
  messages =
      record { role = lit "system"; content = lit "be brief" }
      ∷ record { role = lit "user"; content = lit "hi" }
      ∷ [];
  max_tokens = none;
  temperature = none;
  top_p = none;
  stream = none;
}

to_anthropic-last_system_example :
    ((to_anthropic chat).system ≡ lit "be brief")
    × ((to_anthropic chat).messages ≡ record { role = lit "user"; content = lit "hi" } ∷ [])
    × ((to_anthropic chat).max_tokens ≡ pos 4096)
to_anthropic-last_system_example =
    to_anthropic-last_system chat [] (record { role = lit "user"; content = lit "hi" } ∷ [])
      (record { role = lit "system"; content = lit "be brief" }) refl refl (refl, tt)
