-- ===== src/Runtime/Request/Examples.antt =====
-- A request that is answered in two chunks.
use rakka_inference.Base.{List, Option, [], map, none, ok, refl, some, ◌∷◌, ◌≡◌, ◌⊎◌}
use rakka_inference.Core.Tokens.{FinishReason, Tokens, append, stop}
use rakka_inference.Runtime.Request.{RequestMsg, cancel, chunk, dispatch, new, routed, run}
use rakka_inference.Runtime.Request.Delivery.{IsAnswered, IsOpen, run-delivers}
use Prim.Native.String.{String}

abbrev piece : String → Option FinishReason → RequestMsg String
piece delta reason = chunk (
    ok (record {
      request_id = "r";
      text_delta = delta;
      tool_call_delta = none;
      usage = none;
      finish_reason = reason;
    }))

abbrev messages : List (RequestMsg String)
messages = dispatch "r" routed ∷ piece "Hel" none ∷ piece "lo" (some stop) ∷ cancel ∷ []

-- The cancellation comes too late to deliver anything.
delivered_once : map (λ (t : Tokens). t.text) (run new messages).done ≡ "Hello" ∷ []
unfolding run append new
delivered_once = refl

run-delivers_example : IsOpen (run new messages) ⊎ IsAnswered (run new messages)
run-delivers_example = run-delivers messages
