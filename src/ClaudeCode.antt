-- ===== src/ClaudeCode.antt =====
-- internal/claudecode/parser.go: the structure of a Claude Code request and its response, without the
-- text of any message. encoding/json, bufio.Scanner and SHA-256 are parameters (`Decoders`).
pub mod Tools
pub mod Tests
use majordomo_steward.Prelude.{
  ℕ, suc, Bool, true, false, not, ◌&&◌, ◌||◌, Option, none, some, List, [], ◌∷◌, ◌++◌, Str, lit,
  str_eq, has_prefix, trim_prefix, length, ltb, ◌==◌, if◌then◌else◌,
}
use majordomo_steward.Provider.Streaming.{is_sse_response}

-- anthropicRequest: the raw text of the system prompt, the roles of the messages and the names of the
-- tools.
pub record ClaudeRequest : Type 0 where
  pub system : Str
  pub roles : List Str
  pub tools : List Str

-- An element of `content`; its field `Type` is called `kind` here.
pub record Block : Type 0 where
  pub kind : Str
  pub name : Str

-- anthropicResponseMsg
pub record ClaudeResponse : Type 0 where
  pub stop_reason : Str
  pub content : List Block

pub record RequestMetadata : Type 0 where
  pub message_count : ℕ
  pub user_message_count : ℕ
  pub assistant_message_count : ℕ
  pub tool_names : List Str
  pub tool_use_count : ℕ
  pub has_thinking : Bool
  pub is_plan_mode : Bool
  pub stop_reason : Str
  pub system_prompt_hash : Str

-- What json.Unmarshal gives for the types of the source (none for an error), the lines of a scanner,
-- and SHA-256 in hexadecimal.
pub record Decoders : Type 0 where
  pub request : Str → Option ClaudeRequest
  pub response : Str → Option ClaudeResponse
  pub block_start : Str → Option Block
  pub delta_stop : Str → Option Str
  pub lines : Str → List Str
  pub sha256_hex : Str → Str

unfoldable pub count_role : Str → List Str → ℕ
count_role role [] = 0
count_role role (r ∷ roles) = let n = count_role role roles in if str_eq r role then suc n else n

-- `names[tool.Name]` of a set of names.
abbrev pub is_name : Str → List Str → Bool
is_name tool [] = false
is_name tool (n ∷ ns) = str_eq n tool || is_name tool ns

-- The loop of detectPlanMode: whether a tool of the list has one of the names.
unfoldable pub has_tool : List Str → List Str → Bool
has_tool names [] = false
has_tool names (tool ∷ tools) = is_name tool names || has_tool names tools

abbrev pub read_tool_names : List Str
read_tool_names = lit "Read" ∷ lit "Grep" ∷ lit "Glob" ∷ []

abbrev pub write_tool_names : List Str
write_tool_names = lit "Write" ∷ lit "Edit" ∷ []

unfoldable pub detect_plan_mode : List Str → Bool
detect_plan_mode [] = false
detect_plan_mode (t ∷ tools) =
    has_tool read_tool_names (t ∷ tools) && not (has_tool write_tool_names (t ∷ tools))

-- The order of Go's strings.
unfoldable pub str_ltb : Str → Str → Bool
str_ltb [] [] = false
str_ltb [] (y ∷ t) = true
str_ltb (x ∷ s) [] = false
str_ltb (x ∷ s) (y ∷ t) = let rest = str_ltb s t in if ltb x y then true else (x == y && rest)

-- The keys of the set `toolNameSet`, which sort.Strings puts in order: a name that is there already
-- is not added.
unfoldable pub add_name : Str → List Str → List Str
unfolding str_ltb
add_name name [] = name ∷ []
add_name name (n ∷ names) =
    let rest = add_name name names in
    if str_eq name n then n ∷ names else if str_ltb name n then name ∷ n ∷ names else n ∷ rest

unfoldable pub tool_names_of : List Block → List Str
tool_names_of [] = []
tool_names_of (b ∷ content) =
    let rest = tool_names_of content in
    if str_eq b.kind (lit "tool_use") && not (str_eq b.name []) then add_name b.name rest else rest

unfoldable pub count_tool_uses : List Block → ℕ
count_tool_uses [] = 0
count_tool_uses (b ∷ content) =
    let n = count_tool_uses content in if str_eq b.kind (lit "tool_use") then suc n else n

unfoldable pub has_thinking_block : List Block → Bool
has_thinking_block [] = false
has_thinking_block (b ∷ content) = str_eq b.kind (lit "thinking") || has_thinking_block content

abbrev pub append_block : Option Block → ClaudeResponse → ClaudeResponse
append_block none resp = resp
append_block (some b) resp = record resp { content = resp.content ++ (b ∷ []) }

-- `if event.Delta.StopReason != "" { resp.StopReason = event.Delta.StopReason }`
abbrev pub set_stop : Option Str → ClaudeResponse → ClaudeResponse
set_stop none resp = resp
set_stop (some []) resp = resp
set_stop (some (c ∷ reason)) resp = record resp { stop_reason = c ∷ reason }

-- `len(req.System) > 0 && string(req.System) != "null"`
abbrev pub has_system : Str → Bool
has_system system = not (str_eq system []) && not (str_eq system (lit "null"))

module _ (d : Decoders) where
  -- `switch currentEvent`
  unfoldable pub on_event : Str → Str → ClaudeResponse → ClaudeResponse
  on_event event text resp =
      if str_eq event (lit "content_block_start")
      then append_block (d.block_start text) resp
      else if str_eq event (lit "message_delta")
      then set_stop (d.delta_stop text) resp
      else resp

  unfoldable pub scan_response : List Str → Str → ClaudeResponse → ClaudeResponse
  scan_response [] event resp = resp
  scan_response (line ∷ lines) event resp =
      if has_prefix line (lit "event: ")
      then scan_response lines (trim_prefix line (lit "event: ")) resp
      else if not (has_prefix line (lit "data: "))
      then scan_response lines event resp
      else scan_response lines event (on_event event (trim_prefix line (lit "data: ")) resp)

  unfoldable pub parse_sse_response : Str → ClaudeResponse
  parse_sse_response body =
      scan_response (d.lines body) [] (record { stop_reason = []; content = [] })

  abbrev pub response_of : Str → Option ClaudeResponse
  response_of body =
      if is_sse_response body then some (parse_sse_response body) else d.response body

  abbrev pub metadata_of : ClaudeRequest → ClaudeResponse → RequestMetadata
  metadata_of req resp = record {
    message_count = length req.roles;
    user_message_count = count_role (lit "user") req.roles;
    assistant_message_count = count_role (lit "assistant") req.roles;
    tool_names = tool_names_of resp.content;
    tool_use_count = count_tool_uses resp.content;
    has_thinking = has_thinking_block resp.content;
    is_plan_mode = detect_plan_mode req.tools;
    stop_reason = resp.stop_reason;
    system_prompt_hash = if has_system req.system then d.sha256_hex req.system else [];
  }

  -- none is an error of the decoding of the request or the response.
  unfoldable pub parse_request_response : Str → Str → Option RequestMetadata
  parse_request_response req_body resp_body = elim (d.request req_body) [
    | none ↦ none
    | some req ↦ elim (response_of resp_body) [
      | none ↦ none
      | some resp ↦ some (metadata_of req resp)
    ]
  ]
