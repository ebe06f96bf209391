-- ===== src/Provider/Translator.antt =====
-- internal/provider/translator.go: the requests and responses of the OpenAI API as those of the Anthropic
-- API and back. encoding/json is a parameter (`Json`), none for an error; `F` stands for float64.
pub mod Messages
use majordomo_steward.Prelude.{
  Bool, Option, none, some, List, [], ◌∷◌, ◌++◌, Str, lit, str_eq, has_prefix, if◌then◌else◌,
}
use majordomo_steward.Prelude.Options.{◌>>=◌}
use majordomo_steward.Prelude.Int.{ℤ, pos, ◌+ℤ◌}
use majordomo_steward.Provider.{Provider, provider_name, anthropic_openai}

-- OpenAIMessage and AnthropicMessage have the same fields.
pub record Message : Type 0 where
  pub role : Str
  pub content : Str

pub record OpenaiRequest (F : Type 0) : Type 0 where
  pub model : Str
  pub messages : List Message
  pub max_tokens : Option ℤ
  pub temperature : Option F
  pub top_p : Option F
  pub stream : Option Bool

pub record AnthropicRequest (F : Type 0) : Type 0 where
  pub model : Str
  pub messages : List Message
  pub system : Str
  pub max_tokens : ℤ
  pub temperature : Option F
  pub top_p : Option F
  pub stream : Option Bool

pub record ContentBlock : Type 0 where
  pub kind : Str
  pub text : Str

pub record AnthropicResponse : Type 0 where
  pub id : Str
  pub content : List ContentBlock
  pub model : Str
  pub stop_reason : Str
  pub input_tokens : ℤ
  pub output_tokens : ℤ

pub record OpenaiChoice : Type 0 where
  pub index : ℤ
  pub message : Message
  pub finish_reason : Str

pub record OpenaiResponseUsage : Type 0 where
  pub prompt_tokens : ℤ
  pub completion_tokens : ℤ
  pub total_tokens : ℤ

pub record OpenaiResponse : Type 0 where
  pub id : Str
  pub object : Str
  pub created : ℤ
  pub model : Str
  pub choices : List OpenaiChoice
  pub usage : OpenaiResponseUsage

-- json.Unmarshal and json.Marshal at the types of the translation.
pub record Json (F : Type 0) : Type 0 where
  pub decode_request : Str → Option (OpenaiRequest F)
  pub encode_request : AnthropicRequest F → Option Str
  pub decode_response : Str → Option AnthropicResponse
  pub encode_response : OpenaiResponse → Option Str

abbrev pub is_system : Message → Bool
is_system msg = str_eq msg.role (lit "system")

-- The loop over the messages: the system prompt and the other messages so far.
unfoldable pub convert_messages : List Message → Str → List Message → Str × List Message
convert_messages [] system messages = (system, messages)
convert_messages (msg ∷ msgs) system messages =
    if is_system msg
    then convert_messages msgs msg.content messages
    else convert_messages msgs system (messages ++ (msg ∷ []))

abbrev pub max_tokens_or : Option ℤ → ℤ
max_tokens_or none = pos 4096
max_tokens_or (some n) = n

unfoldable pub to_anthropic : {F : Type 0} → OpenaiRequest F → AnthropicRequest F
to_anthropic req =
    let (system, messages) = convert_messages req.messages [] [] in
    record {
      model = req.model;
      messages = messages;
      system = system;
      max_tokens = max_tokens_or req.max_tokens;
      temperature = req.temperature;
      top_p = req.top_p;
      stream = req.stream;
    }

-- The translated body and the new path.
unfoldable pub translate_openai_to_anthropic : {F : Type 0} → Json F → Str → Option (Str × Str)
translate_openai_to_anthropic json body = do
  req ← json.decode_request body
  translated ← json.encode_request (to_anthropic req)
  some (translated, lit "/v1/messages")

-- The loop over the blocks: the text so far.
unfoldable pub text_content : List ContentBlock → Str → Str
text_content [] content = content
text_content (block ∷ blocks) content =
    if str_eq block.kind (lit "text")
    then text_content blocks (content ++ block.text)
    else text_content blocks content

unfoldable pub finish_reason_of : Str → Str
finish_reason_of stop_reason =
    if str_eq stop_reason (lit "end_turn")
    then lit "stop"
    else if str_eq stop_reason (lit "max_tokens")
    then lit "length"
    else if str_eq stop_reason (lit "stop_sequence")
    then lit "stop"
    else if str_eq stop_reason (lit "tool_use")
    then lit "tool_calls"
    else lit "stop"

unfoldable pub to_openai : AnthropicResponse → OpenaiResponse
to_openai resp = record {
  id = resp.id;
  object = lit "chat.completion";
  created = pos 0;
  model = resp.model;
  choices =
      record {
        index = pos 0;
        message = record { role = lit "assistant"; content = text_content resp.content [] };
        finish_reason = finish_reason_of resp.stop_reason;
      }
      ∷ [];
  usage = record {
    prompt_tokens = resp.input_tokens;
    completion_tokens = resp.output_tokens;
    total_tokens = resp.input_tokens +ℤ resp.output_tokens;
  };
}

unfoldable pub translate_anthropic_to_openai : {F : Type 0} → Json F → Str → Option Str
translate_anthropic_to_openai json body = do
  resp ← json.decode_response body
  json.encode_response (to_openai resp)

-- GetTranslatedPath
unfoldable pub get_translated_path : Provider → Str → Str
get_translated_path anthropic_openai original_path =
    if has_prefix original_path (lit "/v1/chat/completions")
    then lit "/v1/messages"
    else original_path
get_translated_path _ original_path = original_path
