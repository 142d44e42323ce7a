-- ===== src/Providers/Anthropic/Examples.antt =====
-- An answer of Anthropic that is cut off at its bound. The payloads stand for JSON.
use Prim.Native.String.{String}
use rakka_inference.Base.{
  List, Result, [], if◌then◌else◌, map, none, ok, refl, some, true, ℕ, ◌++◌, ◌∷◌, ◌≡◌,
}
use rakka_inference.Providers.Chat.{SseChunk, Values, lifted}
use rakka_inference.Providers.Chat.Streams.{said_all}
use rakka_inference.Providers.Anthropic.{
  SseEvent, content_block_delta, from_batch, lift_event, map_stop_reason, message_delta,
  message_start, message_stop, text_delta,
}
use rakka_inference.Providers.Anthropic.Answers.{
  events-answers, goes_on, in_progress, is_skipped, told_by,
}
use rakka_inference.Core.Tokens.{FinishReason, Tokens}
use rakka_inference.Runtime.Request.{chunk, new, run}
use rakka_inference.Base.Text.{str_eq}
use rakka_inference.Providers.Chat.Systems.{lines}
use rakka_inference.Providers.Anthropic.Requests.{IsSplit, from_batch-IsSplit}
use rakka_inference.Core.Batch.{ContentPart, ExecuteBatch, Message, Role, parts, whole_text}

abbrev parse : String → Result SseEvent String
parse s =
    if str_eq s "start"
    then ok (message_start "m" none)
    else if str_eq s "full"
    then ok (message_delta (some "max_tokens") none)
    else if str_eq s "stop"
    then ok message_stop
    else ok (content_block_delta 0 (text_delta s))

abbrev texts_only : Values
texts_only = record {
  Json = String;
  null = "";
  string = λ s. s;
  array = λ l. "";
  object = λ l. "";
  as_str = λ s. some s;
}

abbrev event_of : String → SseChunk
event_of payload = record { event = none; payload = payload }

abbrev talk : List SseChunk
talk = event_of "start" ∷ event_of "Hel" ∷ event_of "lo" ∷ []

-- The chunk of `message_stop` says that the model stopped; the request has ended before it.
events-answers_example :
    (answer : Tokens) × ((run new (
        map chunk (
          lifted
            (lift_event texts_only parse "req-1")
            (map ok talk ++ ok (event_of "full") ∷ ok (event_of "stop") ∷ [])))).done
      ≡ answer ∷ [])
    × (answer.text
        ≡ said_all (lift_event texts_only parse "req-1") (told_by texts_only parse "req-1") talk)
    × (answer.finish_reason ≡ some (map_stop_reason "max_tokens"))
unfolding in_progress is_skipped goes_on
events-answers_example =
    events-answers texts_only parse "req-1" talk (event_of "full") "max_tokens" none
      (ok (event_of "stop") ∷ []) (refl, (refl, (refl, tt))) refl refl

cut_off : map_stop_reason "max_tokens" ≡ FinishReason.length
unfolding map_stop_reason
cut_off = refl

abbrev message : Role → String → Message
message role t = record { role = role; content = whole_text t }

abbrev batch : ExecuteBatch ℕ
batch = record {
  request_id = "req-1";
  model = "claude-3-haiku";
  messages =
      message Role.system "Be brief."
      ∷ message Role.user "Hi"
      ∷ message Role.system "Be kind."
      ∷ message Role.assistant "Hello"
      ∷ [];
  sampling = record {
    temperature = none;
    top_p = none;
    top_k = none;
    max_tokens = none;
    stop = [];
    presence_penalty = none;
    frequency_penalty = none;
    seed = none;
  };
  stream = true;
  estimated_tokens = 256;
}

two_lines : (from_batch texts_only batch).system ≡ some "Be brief.\nBe kind."
unfolding from_batch
two_lines = refl

-- A system message made of parts.
abbrev in_parts : Message
in_parts = record { role = Role.system; content = parts (ContentPart.text "Be safe." ∷ []) }

-- Its text is nowhere in the request.
parts_are_dropped :
    from_batch texts_only (record batch { messages = in_parts ∷ batch.messages })
    ≡ from_batch texts_only batch
unfolding from_batch
parts_are_dropped = refl

from_batch-IsSplit_example :
    (ts : List String) × IsSplit texts_only
      (in_parts ∷ batch.messages)
      ts
      (from_batch texts_only (record batch { messages = in_parts ∷ batch.messages })).messages
    × ((from_batch texts_only (record batch { messages = in_parts ∷ batch.messages })).system
        ≡ lines ts)
from_batch-IsSplit_example =
    from_batch-IsSplit texts_only (record batch { messages = in_parts ∷ batch.messages })
