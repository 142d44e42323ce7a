-- ===== src/Providers/Gemini.antt =====
-- crates/inference-runtime-gemini/src: wire.rs and runner.rs. Serde's reading of JSON and the settings of
-- safety are parameters.
pub mod Answers
mod Examples
use Prim.Native.String.{String}
use Prim.Native.String.{◌++◌ as ◌+++◌}
use rakka_inference.Base.{
  Bool, List, Option, Result, [], err, if◌then◌else◌, length, map, none, ok, some, ℕ, ◌∷◌,
}
use rakka_inference.Base.Text.{str_eq}
use rakka_inference.Core.Error.{InferenceError, internal}
use rakka_inference.Core.Batch.{
  ContentPart, ExecuteBatch, Message, MessageContent, Role, assistant, image_base64, image_url,
  parts, system, text, tool, user, whole_text,
}
use rakka_inference.Core.Tokens.{FinishReason, TokenChunk, TokenUsage, content_filter, stop}
use rakka_inference.Providers.Chat.{HttpAnswer, SseChunk, respond, split_system}

pub data Part : Type 0 where
  text_part : String → Part
  inline_data : (mime_type content : String) → Part
  file_data : (mime_type file_uri : String) → Part

pub record Content : Type 0 where
  pub role : String
  pub parts_of : List Part

pub record GenerationConfig (F : Type 0) : Type 0 where
  pub temperature : Option F
  pub top_p : Option F
  pub top_k : Option ℕ
  pub max_output_tokens : Option ℕ
  pub stop_sequences : List String

pub record GenerateContentRequest (F Safety : Type 0) : Type 0 where
  pub contents : List Content
  pub system_instruction : Option Content
  pub generation_config : Option (GenerationConfig F)
  pub safety_settings : List Safety

-- A part has a text or none, and a candidate a content with such parts, or none.
pub record Candidate : Type 0 where
  pub content : Option (List (Option String))
  pub finish_reason : Option String

pub record UsageMetadata : Type 0 where
  pub prompt_token_count : ℕ
  pub candidates_token_count : ℕ
  pub cached_content_token_count : ℕ

pub record GenerateContentResponse : Type 0 where
  pub candidates : List Candidate
  pub usage_metadata : Option UsageMetadata

role_name : Role → String
role_name Role.system = "user"
role_name Role.user = "user"
role_name Role.assistant = "model"
role_name Role.tool = "user"

serialize_part : ContentPart → Part
serialize_part (ContentPart.text t) = text_part t
serialize_part (image_base64 mime base64) = inline_data mime base64
serialize_part (image_url url) = file_data "image/jpeg" url

content_parts : MessageContent → List Part
unfolding serialize_part
content_parts (whole_text t) = text_part t ∷ []
content_parts (parts ps) = map serialize_part ps

pub converted : Message → Content
unfolding role_name content_parts
converted m = record { role = role_name m.role; parts_of = content_parts m.content }

pub instruction : Option String → Option Content
instruction none = none
instruction (some t) = some (record { role = "system"; parts_of = text_part t ∷ [] })

pub from_batch :
    {F Safety : Type 0} → ExecuteBatch F → List Safety → GenerateContentRequest F Safety
unfolding split_system instruction converted
from_batch b safety =
    let (before, contents) = split_system converted none [] b.messages in
    record {
      contents = contents;
      system_instruction = instruction before;
      generation_config = some (record {
        temperature = b.sampling.temperature;
        top_p = b.sampling.top_p;
        top_k = b.sampling.top_k;
        max_output_tokens = b.sampling.max_tokens;
        stop_sequences = b.sampling.stop;
      });
      safety_settings = safety;
    }

pub map_finish : String → FinishReason
map_finish s =
    if str_eq s "STOP"
    then FinishReason.stop
    else if str_eq s "MAX_TOKENS"
    then FinishReason.length
    else if str_eq s "SAFETY"
    then FinishReason.content_filter
    else FinishReason.stop

pub push_parts : String → List (Option String) → String
push_parts acc [] = acc
push_parts acc (none ∷ ps) = push_parts acc ps
push_parts acc (some t ∷ ps) = push_parts (acc +++ t) ps

push_content : String → Option (List (Option String)) → String
unfolding push_parts
push_content acc none = acc
push_content acc (some ps) = push_parts acc ps

-- `if let Some(s) = &c.finish_reason`.
pub later : Option FinishReason → Option String → Option FinishReason
unfolding map_finish
later finish none = finish
later finish (some s) = some (map_finish s)

-- The loop over the candidates of an answer: the text and the reason that it leaves.
pub gather : String → Option FinishReason → List Candidate → String × Option FinishReason
unfolding push_content later
gather acc finish [] = (acc, finish)
gather acc finish (c ∷ cs) = gather (push_content acc c.content) (later finish c.finish_reason) cs

usage_of : Option UsageMetadata → Option TokenUsage
usage_of none = none
usage_of (some u) = some (record {
  input_tokens = u.prompt_token_count;
  output_tokens = u.candidates_token_count;
  reasoning_tokens = 0;
  cached_tokens = u.cached_content_token_count;
})

or_stop : Option FinishReason → Option FinishReason
or_stop none = some FinishReason.stop
or_stop (some r) = some r

module _ (Json : Type 0) (parse : String → Result GenerateContentResponse String)
    (request_id : String) where
  abbrev Chunk : Type 0
  Chunk = TokenChunk Json

  chunk_with : String → Option TokenUsage → Option FinishReason → Chunk
  chunk_with said usage reason = record {
    request_id = request_id;
    text_delta = said;
    tool_call_delta = none;
    usage = usage;
    finish_reason = reason;
  }

  pub lift_parsed : GenerateContentResponse → Chunk
  unfolding gather usage_of chunk_with
  lift_parsed parsed =
      let (said, finish) = gather "" none parsed.candidates in
      chunk_with said (usage_of parsed.usage_metadata) finish

  pub lift_chunk : SseChunk → Option (Result Chunk InferenceError)
  unfolding lift_parsed
  lift_chunk sc = if str_eq sc.payload "" then none else elim (parse sc.payload) [
    | err e ↦ some (err (internal ("gemini chunk decode: " +++ e)))
    | ok parsed ↦ some (ok (lift_parsed parsed))
  ]

  pub chunk_of : GenerateContentResponse → Chunk
  unfolding gather usage_of chunk_with or_stop
  chunk_of response =
      let (said, finish) = gather "" none response.candidates in
      chunk_with said (usage_of response.usage_metadata) (or_stop finish)

  -- `execute` behind the sending of the request.
  pub execute :
      (classify : ℕ → Option String → Option String → InferenceError)
      → Bool
      → Result (HttpAnswer GenerateContentResponse) String
      → Result (List (Result Chunk InferenceError)) InferenceError
  unfolding respond lift_chunk chunk_of
  execute classify stream answer =
      respond classify lift_chunk "gemini decode: " chunk_of stream answer
