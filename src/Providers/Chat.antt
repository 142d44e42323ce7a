-- ===== src/Providers/Chat.antt =====
-- What the runners of crates/inference-runtime-openai/src, crates/inference-runtime-anthropic/src and
-- crates/inference-runtime-gemini/src have in common: `decode_sse_stream` of
-- crates/inference-remote-core/src/sse.rs, of which the decoder of events is a parameter, and the body of
-- `execute` behind the sending of the request. A stream is the list of what it yields.
pub mod Streams
pub mod Systems
use Prim.Native.String.{String}
use Prim.Native.String.{◌++◌ as ◌+++◌}
use rakka_inference.Base.Text.{str_eq}
use rakka_inference.Core.Error.{InferenceError, internal, network_error}
use rakka_inference.Core.Batch.{
  Message, MessageContent, Role, assistant, parts, system, tool, user, whole_text,
}
use rakka_inference.Base.{
  Bool, List, Option, Result, [], err, false, if◌then◌else◌, leb, ltb, none, not, ok, some, true, ℕ,
  ◌&&◌, ◌++◌, ◌∷◌,
}

pub record Event : Type 0 where
  pub event : String
  pub payload : String

pub record SseChunk : Type 0 where
  pub event : Option String
  pub payload : String

-- `Some(ev.event).filter(|s| !s.is_empty())`.
named_event : String → Option String
named_event e = if str_eq e "" then none else some e

decode_item : Result Event String → Result SseChunk InferenceError
unfolding named_event
decode_item (ok ev) = ok (record { event = named_event ev.event; payload = ev.payload })
decode_item (err e) = err (network_error ("sse decode: " +++ e))

decode_sse_stream : List (Result Event String) → List (Result SseChunk InferenceError)
unfolding decode_item
decode_sse_stream [] = []
decode_sse_stream (item ∷ items) = decode_item item ∷ decode_sse_stream items

-- The answer to a request: its status, the header `retry-after`, and the body, as a text, as a stream of
-- events, and as serde reads it.
pub record HttpAnswer (Response : Type 0) : Type 0 where
  pub status : ℕ
  pub retry_after : Option String
  pub body : Option String
  pub events : List (Result Event String)
  pub json : Result Response String

pub is_success : ℕ → Bool
is_success status = leb 200 status && ltb status 300

-- JSON values, of serde's crate.
pub record Values : Type 1 where
  pub Json : Type 0
  pub null : Json
  pub string : String → Json
  pub array : List Json → Json
  pub object : List (String × Json) → Json
  pub as_str : Json → Option String

-- `prev.push('\n'); prev.push_str(s)`, where there is a previous text.
push_system : Option String → String → Option String
push_system none s = some s
push_system (some prev) s = some (prev +++ "\n" +++ s)

push_content : Option String → MessageContent → Option String
unfolding push_system
push_content before (whole_text t) = push_system before t
push_content before (parts ps) = before

-- `matches!(m.role, Role::System)`.
unfoldable pub is_system : Message → Bool
is_system m = elim m.role [ Role.system ↦ true | user ↦ false | assistant ↦ false | tool ↦ false ]

-- The loops over the messages of both `from_batch`: the texts of system messages, and the others.
unfoldable pub split_system :
    {M : Type 0} → (Message → M) → Option String → List M → List Message → Option String × List M
unfolding push_content is_system
split_system convert before messages [] = (before, messages)
split_system convert before messages (m ∷ ms) =
    let with_system = split_system convert (push_content before m.content) messages ms in
    let with_message = split_system convert before (messages ++ convert m ∷ []) ms in
    if is_system m then with_system else with_message

module _ {C : Type 0} where
  -- `filter_map` over the stream of events.
  unfoldable pub lifted :
      (SseChunk → Option (Result C InferenceError))
      → List (Result SseChunk InferenceError)
      → List (Result C InferenceError)
  lifted lift [] = []
  lifted lift (err e ∷ items) = err e ∷ lifted lift items
  lifted lift (ok chunk ∷ items) =
      let rest = lifted lift items in elim (lift chunk) [ none ↦ rest | some r ↦ r ∷ rest ]

  whole_answer :
      {Response : Type 0}
      → String
      → (Response → C)
      → Result Response String
      → Result (List (Result C InferenceError)) InferenceError
  whole_answer context chunk_of (err e) = err (internal (context +++ e))
  whole_answer context chunk_of (ok response) = ok (ok (chunk_of response) ∷ [])

  unfoldable pub respond :
      {Response : Type 0} (classify : ℕ → Option String → Option String → InferenceError)
      (lift : SseChunk → Option (Result C InferenceError)) (context : String)
      (chunk_of : Response → C)
      → Bool
      → Result (HttpAnswer Response) String
      → Result (List (Result C InferenceError)) InferenceError
  unfolding lifted whole_answer decode_sse_stream is_success
  respond classify lift context chunk_of stream (err e) = err (network_error e)
  respond classify lift context chunk_of stream (ok answer) =
      if not (is_success answer.status)
      then err (classify answer.status answer.retry_after answer.body)
      else if stream
      then ok (lifted lift (decode_sse_stream answer.events))
      else whole_answer context chunk_of answer.json
