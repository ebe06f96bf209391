-- ===== src/ClaudeCode/Tests.antt =====
-- Runs of the model of internal/claudecode, and the theorem at one.
use majordomo_steward.Prelude.{true, false, none, some, List, [], ◌∷◌, Str, lit, ◌≡◌, refl}
use majordomo_steward.Provider.Streaming.{is_sse_response}
use majordomo_steward.ClaudeCode.{
  Block, Decoders, is_name, tool_names_of, add_name, str_ltb, count_role, count_tool_uses,
  has_thinking_block, detect_plan_mode, has_tool, on_event, scan_response, parse_sse_response,
  parse_request_response,
}
use majordomo_steward.ClaudeCode.Tools.{IsAscending, uses_tool, tool_names_of-IsAscending}

abbrev tool_use : Str → Block
tool_use name = record { kind = lit "tool_use"; name = name }

abbrev blocks : List Block
blocks =
    record { kind = lit "thinking"; name = [] }
    ∷ tool_use (lit "Read")
    ∷ tool_use (lit "Grep")
    ∷ tool_use (lit "Read")
    ∷ []

tool_names_of-IsAscending_example :
    IsAscending (tool_names_of blocks)
    × ((n : Str) → is_name n (tool_names_of blocks) ≡ uses_tool n blocks)
tool_names_of-IsAscending_example = tool_names_of-IsAscending blocks

-- A library for the runs: a data line is the name of a tool that is used, or a reason to stop.
abbrev toy : Decoders
toy = record {
  request = λ body. some (record {
    system = lit "null";
    roles = lit "user" ∷ lit "assistant" ∷ lit "user" ∷ [];
    tools = lit "Read" ∷ lit "Task" ∷ [];
  });
  response = λ body. none;
  block_start = λ s. some (tool_use s);
  delta_stop = λ s. some s;
  lines = λ body.
      lit "event: content_block_start"
      ∷ lit "data: Read"
      ∷ lit "data: Grep"
      ∷ lit ""
      ∷ lit "event: message_delta"
      ∷ lit "data: end_turn"
      ∷ [];
  sha256_hex = λ s. s;
}

parse-stream :
    parse_request_response toy [] (lit " event: x")
    ≡ some (record {
      message_count = 3;
      user_message_count = 2;
      assistant_message_count = 1;
      tool_names = lit "Grep" ∷ lit "Read" ∷ [];
      tool_use_count = 2;
      has_thinking = false;
      is_plan_mode = true;
      stop_reason = lit "end_turn";
      system_prompt_hash = [];
    })
unfolding parse_request_response is_sse_response parse_sse_response scan_response on_event
    tool_names_of add_name str_ltb count_role count_tool_uses has_thinking_block detect_plan_mode
    has_tool
parse-stream = refl
