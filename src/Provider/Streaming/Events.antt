-- ===== src/Provider/Streaming/Events.antt =====
-- An Anthropic stream gives the metrics of the same response without streaming.
use majordomo_steward.Prelude.{
  ◌==◌, length, ◌<◌, true, false, Option, some, List, [], ◌∷◌, ◌++◌, ◌≡◌, refl, ap, ◌∙◌, Str, lit,
  str_eq, All,
}
use majordomo_steward.Prelude.Int.{ℤ}
use majordomo_steward.Provider.Metrics.{AnthropicUsage, build_metrics}
use majordomo_steward.Provider.Streaming.{
  AnthropicScan, no_events, on_data, scan_line, scan_lines, scanned, parse_anthropic_stream,
  is_sse_response, parse_anthropic,
}

-- The lines that a server sends for events, given by name and data.
abbrev pub lines_of : List (Str × Str) → List Str
lines_of [] = []
lines_of ((name, text) ∷ events) =
    (lit "event: " ++ name) ∷ (lit "data: " ++ text) ∷ [] ∷ lines_of events

-- An event of another name, as ping or content_block_delta.
abbrev pub IsOther : Str × Str → Type 0
IsOther event =
    (str_eq event.0 (lit "message_start") ≡ false) × (str_eq event.0 (lit "message_delta") ≡ false)

-- A stream of one message_start, one message_delta, and other events around them.
abbrev pub stream_of :
    List (Str × Str) → Str → List (Str × Str) → Str → List (Str × Str) → List (Str × Str)
stream_of before start between delta after =
    before ++ ((lit "message_start", start) ∷ (between ++ ((lit "message_delta", delta) ∷ after)))

-- The body of a response with these lines.
abbrev pub body_of : List Str → Str
body_of [] = []
body_of (line ∷ lines) = line ++ (10 ∷ body_of lines)

-- A line that bufio.Scanner returns whole: without line breaks, and within its default limit of 64 KiB.
abbrev pub IsLine : Str → Type 0
IsLine line = All (λ c. ((c == 10) ≡ false) × ((c == 13) ≡ false)) line × (length line < 65535)

module _ (message_start : Str → Option (Str × AnthropicUsage))
    (message_delta : Str → Option ℤ) where
  abbrev scan : List (Str × Str) → AnthropicScan → AnthropicScan
  scan events s = scan_lines message_start message_delta (lines_of events) s

  scan-event :
      (name text : Str) (events : List (Str × Str)) (s : AnthropicScan)
      → scan ((name, text) ∷ events) s
        ≡ scan events (on_data message_start message_delta text (record s { current_event = name }))
  unfolding scan_lines scan_line
  scan-event name text events s = refl

  scan-others :
      (others events : List (Str × Str)) (s : AnthropicScan)
      → All IsOther others
      → (name : Str) × (scan (others ++ events) s ≡ scan events (record s { current_event = name }))
  scan-others [] events s h = (s.current_event, refl)
  scan-others ((name, text) ∷ others) events s h =
      let (last, e) = scan-others others events (record s { current_event = name }) h.1 in
      (last, scan-event name text (others ++ events) s ∙ rw (h.0.0, h.0.1) e)

  scan-start :
      (start model : Str) (usage : AnthropicUsage) (events : List (Str × Str)) (s : AnthropicScan)
      → message_start start ≡ some (model, usage)
      → scan ((lit "message_start", start) ∷ events) s
        ≡ scan events (record s {
          current_event = lit "message_start";
          model = model;
          input_tokens = usage.input_tokens;
          cache_read_tokens = usage.cache_read_input_tokens;
          cache_creation_tokens = usage.cache_creation_input_tokens;
        })
  scan-start start model usage events s h =
      scan-event (lit "message_start") start events s ∙ simp h refl

  scan-delta :
      (delta : Str) (tokens : ℤ) (events : List (Str × Str)) (s : AnthropicScan)
      → message_delta delta ≡ some tokens
      → scan ((lit "message_delta", delta) ∷ events) s
        ≡ scan events (record s { current_event = lit "message_delta"; output_tokens = tokens })
  scan-delta delta tokens events s h = scan-event (lit "message_delta") delta events s ∙ simp h refl

  scan-end :
      (others : List (Str × Str)) (s : AnthropicScan)
      → All IsOther others
      → scanned message_start message_delta (scan others s) ≡ scanned message_start message_delta s
  unfolding scan_lines
  scan-end [] s h = refl
  scan-end ((name, text) ∷ others) s h =
      ap (scanned message_start message_delta) (scan-event name text others s)
      ∙ simp (h.0.0, h.0.1) (scan-end others (record s { current_event = name }) h.1)

  stream_lines :
      (before between after : List (Str × Str)) (start delta model : Str) (usage : AnthropicUsage)
      (tokens : ℤ)
      → All IsOther before
      → All IsOther between
      → All IsOther after
      → message_start start ≡ some (model, usage)
      → message_delta delta ≡ some tokens
      → parse_anthropic_stream message_start message_delta
          (lines_of (stream_of before start between delta after))
        ≡ build_metrics model (record usage { output_tokens = tokens })
  unfolding parse_anthropic_stream build_metrics
  stream_lines before between after start delta model usage tokens b m a s d =
      let (name, p) =
        scan-others before
          ((lit "message_start", start) ∷ (between ++ ((lit "message_delta", delta) ∷ after)))
          no_events b in
      let (last, q) = scan-others between ((lit "message_delta", delta) ∷ after) _ m in
      ap (scanned message_start message_delta) (
        p
        ∙ scan-start start model usage (between ++ ((lit "message_delta", delta) ∷ after)) _ s
        ∙ q
        ∙ scan-delta delta tokens after _ d)
      ∙ scan-end after _ a

  is_sse_response-lines :
      (name text : Str) (events : List (Str × Str))
      → is_sse_response (body_of (lines_of ((name, text) ∷ events))) ≡ true
  unfolding is_sse_response
  is_sse_response-lines name text events = refl

  is_sse_response-stream :
      (before between after : List (Str × Str)) (start delta : Str)
      → is_sse_response (body_of (lines_of (stream_of before start between delta after))) ≡ true
  is_sse_response-stream [] between after start delta =
      is_sse_response-lines (lit "message_start") start _
  is_sse_response-stream ((name, text) ∷ before) between after start delta =
      is_sse_response-lines name text _

  -- With a scanner that splits a body into its lines where each is within the limit of bufio.Scanner. For
  -- any events of other names, in any number, and lines within that limit: a body with one message_start,
  -- then other events, one message_delta, and other events, gives the metrics of the message without
  -- streaming: those of the model and the input tokens that message_start decodes to, and of the output
  -- tokens that message_delta decodes to.
  pub stream-build_metrics :
      (split : Str → List Str) (unmarshal : Str → Option (Str × AnthropicUsage))
      (before between after : List (Str × Str)) (start delta model : Str) (usage : AnthropicUsage)
      (tokens : ℤ)
      → ((lines : List Str) → All IsLine lines → split (body_of lines) ≡ lines)
      → All IsLine (lines_of (stream_of before start between delta after))
      → All IsOther before
      → All IsOther between
      → All IsOther after
      → message_start start ≡ some (model, usage)
      → message_delta delta ≡ some tokens
      → parse_anthropic message_start message_delta split unmarshal
          (body_of (lines_of (stream_of before start between delta after)))
        ≡ some (build_metrics model (record usage { output_tokens = tokens }))
  unfolding parse_anthropic
  stream-build_metrics split unmarshal before between after start delta model usage tokens scans
        short b m a s d =
      rw
        (
          is_sse_response-stream before between after start delta,
          scans (lines_of (stream_of before start between delta after)) short,
        )
        (ap some (stream_lines before between after start delta model usage tokens b m a s d))
