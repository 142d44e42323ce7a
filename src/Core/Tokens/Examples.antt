-- ===== src/Core/Tokens/Examples.antt =====
-- An answer in three chunks.
use rakka_inference.Base.{List, Option, [], none, refl, some, ◌∷◌, ◌≡◌}
use rakka_inference.Core.Tokens.{
  TokenChunk, TokenUsage, append, append_all, default_tokens, no_usage,
}
use Prim.Native.String.{String}

abbrev chunk : String → Option TokenUsage → TokenChunk String
chunk delta usage = record {
  request_id = "r";
  text_delta = delta;
  tool_call_delta = none;
  usage = usage;
  finish_reason = none;
}

abbrev answer : List (TokenChunk String)
answer =
    chunk "Hel" none
    ∷ chunk "lo" (some (record no_usage { output_tokens = 2 }))
    ∷ chunk "!" (some (record no_usage { output_tokens = 1 }))
    ∷ []

hello : (append_all default_tokens answer).text ≡ "Hello!"
unfolding append_all append
hello = refl
