-- ===== src/Providers/Gemini/Examples.antt =====
-- An answer of Gemini in two parts. The payloads stand for JSON.
use Prim.Native.String.{String}
use rakka_inference.Base.{Result, [], if◌then◌else◌, map, none, ok, refl, some, ◌∷◌, ◌≡◌}
use rakka_inference.Providers.Chat.{SseChunk, lifted}
use rakka_inference.Providers.Gemini.{GenerateContentResponse, lift_chunk, map_finish}
use rakka_inference.Core.Tokens.{FinishReason, append, no_usage}
use rakka_inference.Runtime.Request.{chunk, new, run}
use rakka_inference.Base.Text.{str_eq}

abbrev parse : String → Result GenerateContentResponse String
parse s = ok (record {
  candidates =
      record {
        content = some (some s ∷ none ∷ []);
        finish_reason = if str_eq s "!" then some "MAX_TOKENS" else none;
      }
      ∷ [];
  usage_metadata = none;
})

abbrev event_of : String → SseChunk
event_of payload = record { event = none; payload = payload }

two_parts :
    (run new (
      map chunk (
        lifted
          (lift_chunk String parse "req-1")
          (ok (event_of "Hi") ∷ ok (event_of "") ∷ ok (event_of "!") ∷ [])))).done
    ≡ record {
      request_id = "";
      text = "Hi!";
      usage = no_usage;
      finish_reason = some FinishReason.length;
    }
      ∷ []
unfolding lifted lift_chunk run new append map_finish
two_parts = refl
