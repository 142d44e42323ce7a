-- ===== src/Providers/OpenAi.antt =====
-- crates/inference-runtime-openai/src: wire.rs and runner.rs. JSON values and serde's reading of them are
-- parameters.
pub mod Answers
mod Examples
use Prim.Native.String.{String}
use Prim.Native.String.{◌++◌ as ◌+++◌}
use rakka_inference.Base.{
  Bool, List, Option, Result, [], err, if◌then◌else◌, length, map, none, ok, some, ℕ, ◌||◌, ◌∷◌,
}
use rakka_inference.Base.Text.{str_eq}
use rakka_inference.Core.Error.{InferenceError, internal}
use rakka_inference.Core.Batch.{
  ContentPart, ExecuteBatch, Message, MessageContent, Role, assistant, parts, system, tool, user,
  whole_text,
}
use rakka_inference.Core.Tokens.{FinishReason, TokenChunk, TokenUsage, content_filter}
use rakka_inference.Providers.Chat.{HttpAnswer, SseChunk, Values, respond}

pub record ChatMessage (Json : Type 0) : Type 0 where
  pub role : String
  pub content : Json

pub record ChatRequest (Json F : Type 0) : Type 0 where
  pub model : String
  pub messages : List (ChatMessage Json)
  pub temperature : Option F
  pub top_p : Option F
  pub max_tokens : Option ℕ
  pub stop : List String
  pub stream : Bool
  pub seed : Option ℕ

pub record ContentDelta (Json : Type 0) : Type 0 where
  pub content : Option String
  pub tool_calls : Option Json

pub record ChoiceDelta (Json : Type 0) : Type 0 where
  pub delta : ContentDelta Json
  pub finish_reason : Option String

pub record PromptTokensDetails : Type 0 where
  pub cached_tokens : ℕ

pub record CompletionTokensDetails : Type 0 where
  pub reasoning_tokens : ℕ

pub record UsageDelta : Type 0 where
  pub prompt_tokens : ℕ
  pub completion_tokens : ℕ
  pub prompt_tokens_details : Option PromptTokensDetails
  pub completion_tokens_details : Option CompletionTokensDetails

pub record ChatChunk (Json : Type 0) : Type 0 where
  pub id : String
  pub choices : List (ChoiceDelta Json)
  pub usage : Option UsageDelta

pub record ChatChoice (Json : Type 0) : Type 0 where
  pub message : ChatMessage Json
  pub finish_reason : Option String

pub record ChatResponse (Json : Type 0) : Type 0 where
  pub id : String
  pub choices : List (ChatChoice Json)
  pub usage : Option UsageDelta

role_name : Role → String
role_name Role.system = "system"
role_name Role.user = "user"
role_name Role.assistant = "assistant"
role_name Role.tool = "tool"

pub map_finish_reason : String → Option FinishReason
map_finish_reason s =
    if str_eq s "stop" || str_eq s "end_turn"
    then some FinishReason.stop
    else if str_eq s "length"
    then some FinishReason.length
    else if str_eq s "tool_calls" || str_eq s "function_call"
    then some FinishReason.tool_calls
    else if str_eq s "content_filter"
    then some FinishReason.content_filter
    else some FinishReason.stop

cached : Option PromptTokensDetails → ℕ
cached none = 0
cached (some d) = d.cached_tokens

reasoned : Option CompletionTokensDetails → ℕ
reasoned none = 0
reasoned (some d) = d.reasoning_tokens

usage_of : Option UsageDelta → Option TokenUsage
unfolding cached reasoned
usage_of none = none
usage_of (some u) = some (record {
  input_tokens = u.prompt_tokens;
  output_tokens = u.completion_tokens;
  reasoning_tokens = reasoned u.completion_tokens_details;
  cached_tokens = cached u.prompt_tokens_details;
})

-- The usage of a whole answer, without its details.
total_usage : Option UsageDelta → Option TokenUsage
total_usage none = none
total_usage (some u) = some (record {
  input_tokens = u.prompt_tokens;
  output_tokens = u.completion_tokens;
  reasoning_tokens = 0;
  cached_tokens = 0;
})

-- `finish_reason.as_deref().and_then(map_finish_reason)`.
pub reason_of : Option String → Option FinishReason
unfolding map_finish_reason
reason_of none = none
reason_of (some s) = map_finish_reason s

pub push : String → Option String → String
push acc none = acc
push acc (some s) = acc +++ s

module _ (v : Values) where
  abbrev Chunk : Type 0
  Chunk = TokenChunk v.Json

  -- The parts of a message, as serde writes them.
  module _ (parts_json : List ContentPart → v.Json) where
    serialize_content : MessageContent → v.Json
    serialize_content (whole_text t) = v.string t
    serialize_content (parts ps) = parts_json ps

    serialize_message : Message → ChatMessage v.Json
    unfolding role_name serialize_content
    serialize_message m = record { role = role_name m.role; content = serialize_content m.content }

    from_batch : {F : Type 0} → ExecuteBatch F → ChatRequest v.Json F
    unfolding serialize_message
    from_batch b = record {
      model = b.model;
      messages = map serialize_message b.messages;
      temperature = b.sampling.temperature;
      top_p = b.sampling.top_p;
      max_tokens = b.sampling.max_tokens;
      stop = b.sampling.stop;
      stream = b.stream;
      seed = b.sampling.seed;
    }

  -- The loop over the choices of a chunk: the text and the reason that it leaves.
  pub gather :
      String → Option FinishReason → List (ChoiceDelta v.Json) → String × Option FinishReason
  unfolding push reason_of
  gather said finish [] = (said, finish)
  gather said finish (ch ∷ choices) =
      gather (push said ch.delta.content) (reason_of ch.finish_reason) choices

  first_calls : List (ChoiceDelta v.Json) → Option v.Json
  first_calls [] = none
  first_calls (ch ∷ choices) =
      let rest = first_calls choices in
      elim ch.delta.tool_calls [ none ↦ rest | some calls ↦ some calls ]

  module _ (parse : String → Result (ChatChunk v.Json) String) (request_id : String) where
    pub lift_parsed : ChatChunk v.Json → Chunk
    unfolding gather first_calls usage_of
    lift_parsed parsed =
        let (said, finish) = gather "" none parsed.choices in
        record {
          request_id = request_id;
          text_delta = said;
          tool_call_delta = first_calls parsed.choices;
          usage = usage_of parsed.usage;
          finish_reason = finish;
        }

    pub is_done : SseChunk → Bool
    is_done sc = str_eq sc.payload "[DONE]"

    pub lift_chunk : SseChunk → Option (Result Chunk InferenceError)
    unfolding lift_parsed is_done
    lift_chunk sc = if is_done sc then none else elim (parse sc.payload) [
      | err e ↦ some (err (internal ("openai chunk decode: " +++ e)))
      | ok parsed ↦ some (ok (lift_parsed parsed))
    ]

    -- The loop over the choices of a whole answer.
    gather_whole :
        String → Option FinishReason → List (ChatChoice v.Json) → String × Option FinishReason
    unfolding push reason_of
    gather_whole said finish [] = (said, finish)
    gather_whole said finish (ch ∷ choices) =
        gather_whole (push said (v.as_str ch.message.content)) (reason_of ch.finish_reason) choices

    or_stop : Option FinishReason → Option FinishReason
    or_stop none = some FinishReason.stop
    or_stop (some r) = some r

    chunk_of : ChatResponse v.Json → Chunk
    unfolding gather_whole or_stop total_usage
    chunk_of response =
        let (said, finish) = gather_whole "" none response.choices in
        record {
          request_id = request_id;
          text_delta = said;
          tool_call_delta = none;
          usage = total_usage response.usage;
          finish_reason = or_stop finish;
        }

    -- `execute` behind the sending of the request.
    pub execute :
        (classify : ℕ → Option String → Option String → InferenceError)
        → Bool
        → Result (HttpAnswer (ChatResponse v.Json)) String
        → Result (List (Result Chunk InferenceError)) InferenceError
    unfolding respond lift_chunk chunk_of
    execute classify stream answer =
        respond classify lift_chunk "openai response decode: " chunk_of stream answer
