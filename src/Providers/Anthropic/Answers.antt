-- ===== src/Providers/Anthropic/Answers.antt =====
-- What a request makes of a stream of Anthropic.
use Prim.Native.String.{String}
use text.Mathlib.TextLemmas.{append-nil as texts_nil}
use rakka_inference.Base.{
  All, All-map, Bool, Bool-cases, List, Option, Result, Result-cases, [], err, false, if◌then◌else◌,
  inl, inr, map, none, ok, refl, some, sym, true, ◌++◌, ◌||◌, ◌∙◌, ◌∷◌, ◌≡◌,
}
use rakka_inference.Providers.Chat.{SseChunk, Values, lifted}
use rakka_inference.Providers.Chat.Streams.{IsQuiet, said_all, skipped, spoken, stream-answers}
use rakka_inference.Providers.Anthropic.{
  SseEvent, UsageDelta, chunk_with, content_block_delta, content_block_start, content_block_stop,
  error_event, input_json_delta, is_ping, lift_event, lift_parsed, map_stop_reason, message_delta,
  message_start, message_stop, ping_event, reason_of, text_delta, usage_of,
}
use rakka_inference.Core.Tokens.{TokenChunk, Tokens}
use rakka_inference.Core.Error.{InferenceError}
use rakka_inference.Runtime.Request.{chunk, new, run}
use rakka_inference.Base.Text.{str_eq}

-- The events before the one that gives a reason.
unfoldable pub goes_on : SseEvent → Bool
goes_on (message_start id usage) = true
goes_on (content_block_start index) = true
goes_on (content_block_delta index delta) = true
goes_on (content_block_stop index) = true
goes_on ping_event = true
goes_on (message_delta stop_reason usage) = false
goes_on message_stop = false
goes_on (error_event kind message) = false

text_said : SseEvent → String
text_said (content_block_delta index (text_delta content)) = content
text_said (content_block_delta index (input_json_delta partial_json)) = ""
text_said (message_start id usage) = ""
text_said (content_block_start index) = ""
text_said (content_block_stop index) = ""
text_said ping_event = ""
text_said (message_delta stop_reason usage) = ""
text_said message_stop = ""
text_said (error_event kind message) = ""

module _ (v : Values) (parse : String → Result SseEvent String) (request_id : String) where
  unfoldable pub is_skipped : SseChunk → Bool
  unfolding is_ping
  is_skipped sc = is_ping v parse request_id sc.event || str_eq sc.payload ""

  pub told_by : SseChunk → String
  told_by sc =
      if is_skipped sc
      then ""
      else elim (parse sc.payload) [ err e ↦ "" | ok event ↦ text_said event ]

  unfoldable pub in_progress : SseChunk → Bool
  in_progress sc =
      is_skipped sc || elim (parse sc.payload) [ err e ↦ false | ok event ↦ goes_on event ]

  abbrev Quiet : SseChunk → Type 0
  Quiet = IsQuiet (lift_event v parse request_id) told_by

  read-IsQuiet :
      (sc : SseChunk) (event : SseEvent)
      → lift_event v parse request_id sc ≡ lift_parsed v parse request_id event
      → told_by sc ≡ text_said event
      → goes_on event ≡ true
      → Quiet sc
  unfolding goes_on text_said lift_parsed chunk_with
  read-IsQuiet sc (message_start id usage) e t h = skipped e t
  read-IsQuiet sc (content_block_start index) e t h = skipped e t
  read-IsQuiet sc (content_block_delta index (text_delta content)) e t h = spoken _ e refl (sym t)
  read-IsQuiet sc (content_block_delta index (input_json_delta partial_json)) e t h =
      spoken _ e refl (sym t)
  read-IsQuiet sc (content_block_stop index) e t h = skipped e t
  read-IsQuiet sc ping_event e t h = skipped e t
  read-IsQuiet sc (message_delta stop_reason usage) e t h = absurd (cc)
  read-IsQuiet sc message_stop e t h = absurd (cc)
  read-IsQuiet sc (error_event kind message) e t h = absurd (cc)

  event-IsQuiet : (sc : SseChunk) → in_progress sc ≡ true → Quiet sc
  unfolding in_progress told_by lift_event is_skipped
  event-IsQuiet sc h = elim (Bool-cases (is_skipped sc)) [
    | inl skip ↦ skipped (rw (skip, lift_event) refl) (rw (skip, told_by) refl)
    | inr kept ↦ elim (Result-cases (parse sc.payload)) [
      | inl (event, parsed) ↦
          read-IsQuiet sc event (rw (kept, parsed, lift_event) refl)
            (rw (kept, parsed, told_by) refl) (sym (rw (kept, parsed, in_progress) refl) ∙ h)
      | inr (e, failed) ↦ absurd (cc (kept, failed, h))
    ]
  ]

  closing_chunk : String → Option UsageDelta → TokenChunk v.Json
  unfolding chunk_with usage_of reason_of
  closing_chunk stop_reason usage =
      chunk_with v parse request_id "" none (usage_of usage)
        (reason_of v parse request_id (some stop_reason))

  -- A stream of events in progress, then a `message_delta` with a stop reason, and then anything: a new
  -- request delivers one answer, with the texts of the deltas in order and with this reason, whatever
  -- `message_stop`, whose chunk says that the model stopped, comes behind.
  pub events-answers :
      (talk : List SseChunk) (closing : SseChunk) (stop_reason : String) (usage : Option UsageDelta)
      (rest : List (Result SseChunk InferenceError))
      → All (λ (sc : SseChunk). in_progress sc ≡ true) talk
      → is_skipped closing ≡ false
      → parse closing.payload ≡ ok (message_delta (some stop_reason) usage)
      → (answer : Tokens) × ((run new (
            map chunk
              (lifted (lift_event v parse request_id) (map ok talk ++ ok closing ∷ rest)))).done
          ≡ answer ∷ [])
        × (answer.text ≡ said_all (lift_event v parse request_id) told_by talk)
        × (answer.finish_reason ≡ some (map_stop_reason stop_reason))
  unfolding lift_event lift_parsed chunk_with reason_of is_skipped closing_chunk
  events-answers talk closing stop_reason usage rest all kept parsed =
      let (answer, done, text, reason) =
        stream-answers (lift_event v parse request_id) told_by talk closing
          (closing_chunk stop_reason usage) (map_stop_reason stop_reason) rest
          (All-map (λ sc. in_progress sc ≡ true) Quiet event-IsQuiet talk all)
          (rw (kept, parsed, lift_event) refl) refl in
      (answer, done, text ∙ texts_nil _, reason)
