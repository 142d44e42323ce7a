-- ===== src/Providers/OpenAi/Examples.antt =====
-- A chunk with two choices, of which the first has a reason to end.
use Prim.Native.String.{String}
use rakka_inference.Base.{Option, [], none, refl, some, ◌∷◌, ◌≡◌}
use rakka_inference.Providers.Chat.{Values}
use rakka_inference.Providers.OpenAi.{ChoiceDelta, gather}

abbrev texts_only : Values
texts_only = record {
  Json = String;
  null = "";
  string = λ s. s;
  array = λ l. "";
  object = λ l. "";
  as_str = λ s. some s;
}

abbrev choice : String → Option String → ChoiceDelta String
choice s reason = record {
  delta = record { content = some s; tool_calls = none };
  finish_reason = reason;
}

-- The reason of an earlier choice is dropped where a later one has none.
reason_dropped :
    gather texts_only "" none (choice "a" (some "stop") ∷ choice "b" none ∷ []) ≡ ("ab", none)
unfolding gather
reason_dropped = refl
