-- ===== src/Providers/Anthropic.antt =====
-- crates/inference-runtime-anthropic/src: wire.rs and runner.rs. JSON values and serde's reading of them
-- are parameters.
pub mod Requests
pub mod Answers
mod Examples
use Prim.Native.String.{String}
use Prim.Native.String.{◌++◌ as ◌+++◌}
use rakka_inference.Base.Text.{str_eq}
use rakka_inference.Core.Error.{InferenceError, internal}
use rakka_inference.Core.Batch.{
  ContentPart, ExecuteBatch, Message, MessageContent, Role, assistant, image_base64, image_url,
  parts, text, tool, user, whole_text,
}
use rakka_inference.Core.Tokens.{FinishReason, TokenChunk, TokenUsage, length, stop, tool_calls}
use rakka_inference.Providers.Chat.{HttpAnswer, SseChunk, Values, respond, split_system}
use rakka_inference.Base.{
  Bool, List, Option, Result, [], err, false, if◌then◌else◌, map, none, ok, some, ℕ, ◌||◌, ◌∷◌,
}

pub record MessagesMessage (Json : Type 0) : Type 0 where
  pub role : String
  pub content : Json

pub record MessagesRequest (Json F : Type 0) : Type 0 where
  pub model : String
  pub messages : List (MessagesMessage Json)
  pub system : Option String
  pub max_tokens : Option ℕ
  pub temperature : Option F
  pub top_p : Option F
  pub stop_sequences : List String
  pub stream : Bool

pub record UsageDelta : Type 0 where
  pub input_tokens : ℕ
  pub output_tokens : ℕ
  pub cache_creation_input_tokens : ℕ
  pub cache_read_input_tokens : ℕ

pub data BlockDelta : Type 0 where
  text_delta : (content : String) → BlockDelta
  input_json_delta : (partial_json : String) → BlockDelta

pub data SseEvent : Type 0 where
  message_start : (id : String) (usage : Option UsageDelta) → SseEvent
  content_block_start : (index : ℕ) → SseEvent
  content_block_delta : (index : ℕ) → BlockDelta → SseEvent
  content_block_stop : (index : ℕ) → SseEvent
  message_delta : (stop_reason : Option String) (usage : Option UsageDelta) → SseEvent
  message_stop : SseEvent
  ping_event : SseEvent
  error_event : (kind message : String) → SseEvent

pub data ResponseContent (Json : Type 0) : Type 0 where
  said : (content : String) → ResponseContent Json
  tool_use : (id name : String) (input : Json) → ResponseContent Json

pub record MessagesResponse (Json : Type 0) : Type 0 where
  pub id : String
  pub content : List (ResponseContent Json)
  pub stop_reason : Option String
  pub usage : Option UsageDelta

-- `max_tokens.or(Some(1024))`.
or_default : Option ℕ → Option ℕ
or_default none = some 1024
or_default (some n) = some n

role_name : Role → String
role_name Role.system = "user"
role_name user = "user"
role_name assistant = "assistant"
role_name tool = "user"

pub map_stop_reason : String → FinishReason
map_stop_reason s =
    if str_eq s "end_turn" || str_eq s "stop_sequence"
    then stop
    else if str_eq s "max_tokens"
    then FinishReason.length
    else if str_eq s "tool_use"
    then tool_calls
    else stop

usage_of : Option UsageDelta → Option TokenUsage
usage_of none = none
usage_of (some u) = some (record {
  input_tokens = u.input_tokens;
  output_tokens = u.output_tokens;
  reasoning_tokens = 0;
  cached_tokens = u.cache_read_input_tokens;
})

module _ (v : Values) where
  abbrev Chunk : Type 0
  Chunk = TokenChunk v.Json

  serialize_part : ContentPart → v.Json
  serialize_part (text t) = v.object (("type", v.string "text") ∷ ("text", v.string t) ∷ [])
  serialize_part (image_base64 mime base64) = v.object (
      ("type", v.string "image")
      ∷ (
        "source",
        v.object (
            ("type", v.string "base64")
            ∷ ("media_type", v.string mime)
            ∷ ("data", v.string base64)
            ∷ []),
      )
      ∷ [])
  serialize_part (image_url url) = v.object (
      ("type", v.string "image")
      ∷ ("source", v.object (("type", v.string "url") ∷ ("url", v.string url) ∷ []))
      ∷ [])

  content_json : MessageContent → v.Json
  unfolding serialize_part
  content_json (whole_text t) = v.string t
  content_json (parts ps) = v.array (map serialize_part ps)

  pub converted : Message → MessagesMessage v.Json
  unfolding role_name content_json
  converted m = record { role = role_name m.role; content = content_json m.content }

  unfoldable pub from_batch : {F : Type 0} → ExecuteBatch F → MessagesRequest v.Json F
  unfolding split_system or_default converted
  from_batch b =
      let (before, messages) = split_system converted none [] b.messages in
      record {
        model = b.model;
        messages = messages;
        system = before;
        max_tokens = or_default b.sampling.max_tokens;
        temperature = b.sampling.temperature;
        top_p = b.sampling.top_p;
        stop_sequences = b.sampling.stop;
        stream = b.stream;
      }

  module _ (parse : String → Result SseEvent String) (request_id : String) where
    chunk_with : String → Option v.Json → Option TokenUsage → Option FinishReason → Chunk
    chunk_with said_text call usage reason = record {
      request_id = request_id;
      text_delta = said_text;
      tool_call_delta = call;
      usage = usage;
      finish_reason = reason;
    }

    reason_of : Option String → Option FinishReason
    unfolding map_stop_reason
    reason_of none = none
    reason_of (some s) = some (map_stop_reason s)

    pub lift_parsed : SseEvent → Option (Result Chunk InferenceError)
    unfolding chunk_with usage_of reason_of
    lift_parsed (content_block_delta index (text_delta content)) =
        some (ok (chunk_with content none none none))
    lift_parsed (content_block_delta index (input_json_delta partial_json)) =
        some (ok (chunk_with "" (some (v.string partial_json)) none none))
    lift_parsed (message_delta stop_reason usage) =
        some (ok (chunk_with "" none (usage_of usage) (reason_of stop_reason)))
    lift_parsed (message_start id usage) = none
    lift_parsed message_stop = some (ok (chunk_with "" none none (some stop)))
    lift_parsed (error_event kind message) =
        some (err (internal ("anthropic stream error: " +++ kind +++ ": " +++ message)))
    lift_parsed (content_block_start index) = none
    lift_parsed (content_block_stop index) = none
    lift_parsed ping_event = none

    is_ping : Option String → Bool
    is_ping none = false
    is_ping (some e) = str_eq e "ping"

    pub lift_event : SseChunk → Option (Result Chunk InferenceError)
    unfolding lift_parsed is_ping
    lift_event sc =
        if is_ping sc.event || str_eq sc.payload "" then none else elim (parse sc.payload) [
          | err e ↦ some (err (internal ("anthropic event decode: " +++ e)))
          | ok event ↦ lift_parsed event
        ]

    -- The loop over the content of a whole answer.
    push_contents : String → List (ResponseContent v.Json) → String
    push_contents acc [] = acc
    push_contents acc (said content ∷ cs) = push_contents (acc +++ content) cs
    push_contents acc (tool_use id name input ∷ cs) = push_contents acc cs

    reason_or_stop : Option FinishReason → Option FinishReason
    reason_or_stop none = some stop
    reason_or_stop (some r) = some r

    pub chunk_of : MessagesResponse v.Json → Chunk
    unfolding chunk_with push_contents usage_of reason_of reason_or_stop
    chunk_of response =
        chunk_with (push_contents "" response.content) none (usage_of response.usage)
          (reason_or_stop (reason_of response.stop_reason))

    -- `execute` behind the sending of the request.
    pub execute :
        (classify : ℕ → Option String → Option String → InferenceError)
        → Bool
        → Result (HttpAnswer (MessagesResponse v.Json)) String
        → Result (List (Result Chunk InferenceError)) InferenceError
    unfolding respond lift_event chunk_of
    execute classify stream answer =
        respond classify lift_event "anthropic decode: " chunk_of stream answer
