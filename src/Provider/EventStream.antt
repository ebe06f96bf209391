-- ===== src/Provider/EventStream.antt =====
-- The AWS eventstream frames of internal/provider/bedrock.go. The decoding of a frame's JSON payload
-- is a parameter: `none` stands for the error of json.Unmarshal.
pub mod Bounds
pub mod RoundTrip
use majordomo_steward.Prelude.{
  ℕ, zero, suc, ◌+◌, ◌-◌, ◌*◌, ◌%◌, ◌^◌, ◌<◌, arith, Str, Bool, false, true, ◌&&◌, ◌||◌, Option,
  none, some, [], ltb, leb, get_or, take, drop, length, if◌then◌else◌, Result, ok, err, panic,
  out_of_fuel, ◌>>=◌,
}
use majordomo_steward.Prelude.Int.{ℤ, pos, ◌+ℤ◌, ltb_ℤ}
use majordomo_steward.Provider.{bedrock}
use majordomo_steward.Provider.Metrics.{UsageMetrics, empty_metrics, build_bedrock_metrics}

abbrev pub u32_mod : ℕ
u32_mod = 2 ^ 32

-- binary.BigEndian.Uint32 of the four bytes of `b`
unfoldable pub be32 : Str → ℕ
be32 b =
    (get_or b 0 0 * 2 ^ 24 + get_or b 1 0 * 2 ^ 16 + get_or b 2 0 * 2 ^ 8 + get_or b 3 0) % u32_mod

pub be32-lt : (b : Str) → be32 b < u32_mod
unfolding be32
be32-lt b = omega arith

-- `a - b` of two uint32
abbrev pub sub32 : ℕ → ℕ → ℕ
sub32 a b = (a + (u32_mod - b)) % u32_mod

pub data FrameError : Type 0 where
  frame_length headers_length payload_bounds : FrameError

-- `body[lo:hi]`, which panics where the bounds are not in order or not within the body.
unfoldable pub slice : Str → ℕ → ℕ → Result FrameError Str
slice body lo hi =
    if leb lo hi && leb hi (length body) then ok (take (hi - lo) (drop lo body)) else panic

-- The `usage` object of bedrockStreamMetadataEvent
pub record BedrockUsage : Type 0 where
  pub input_tokens : ℤ
  pub output_tokens : ℤ
  pub cache_read_input_tokens : ℤ
  pub cache_write_input_tokens : ℤ

-- A payload changes what was found only if it decodes and has tokens.
unfoldable pub take_event : Option BedrockUsage → Option BedrockUsage → Option BedrockUsage
take_event none found = found
take_event (some u) found =
    if ltb_ℤ (pos 0) (u.input_tokens +ℤ u.output_tokens) then some u else found

-- What the parser returns for what it found.
abbrev pub metrics_of : Option BedrockUsage → UsageMetrics
metrics_of none = empty_metrics bedrock []
metrics_of (some u) =
    build_bedrock_metrics u.input_tokens u.output_tokens u.cache_read_input_tokens
      u.cache_write_input_tokens

module _ (unmarshal : Str → Option BedrockUsage) where
  -- The part of a round that follows the reading of the two lengths: the tests, the payload, what
  -- is found now, and the next offset.
  unfoldable pub read_payload :
      Str → ℕ → Option BedrockUsage → ℕ → ℕ → Result FrameError (Option BedrockUsage × ℕ)
  read_payload body offset found total_len headers_len =
      if ltb total_len 16 || ltb (length body - offset) total_len
      then err frame_length
      else if ltb (sub32 total_len 16) headers_len
      then err headers_length
      else (let payload_start = offset + 12 + headers_len in
          let payload_end = offset + total_len - 4 in
          if ltb payload_end payload_start
          then err payload_bounds
          else (slice body payload_start payload_end >>= λ payload.
              ok (take_event (unmarshal payload) found, offset + total_len)))

  -- One round of the loop, from the two lengths on.
  unfoldable pub read_frame :
      Str → ℕ → Option BedrockUsage → Result FrameError (Option BedrockUsage × ℕ)
  read_frame body offset found = do
    total_bytes ← slice body offset (offset + 4)
    headers_bytes ← slice body (offset + 4) (offset + 8)
    read_payload body offset found (be32 total_bytes) (be32 headers_bytes)

  -- The loop `for offset < len(body)`, which fewer than twelve bytes left end.
  unfoldable pub read_frames :
      ℕ → Str → ℕ → Option BedrockUsage → Result FrameError (Option BedrockUsage)
  read_frames zero body offset found = out_of_fuel
  read_frames (suc fuel) body offset found =
      elim (ltb offset (length body) && leb 12 (length body - offset)) [
        | false ↦ ok found
        | true ↦ read_frame body offset found >>= λ next. read_frames fuel body next.1 next.0
      ]

  -- Each round moves the offset on, so the length of the body is fuel enough.
  unfoldable pub parse_event_stream_response : Str → Result FrameError UsageMetrics
  parse_event_stream_response body =
      read_frames (suc (length body)) body 0 none >>= λ found. ok (metrics_of found)

-- isEventStreamResponse
unfoldable pub is_event_stream_response : Str → Bool
is_event_stream_response body =
    if ltb (length body) 16
    then false
    else (let total_len = be32 (take 4 body) in
        let headers_len = be32 (take 4 (drop 4 body)) in
        leb 16 total_len && leb total_len (length body) && leb headers_len (sub32 total_len 16))
