-- ===== src/Local/Generation/Examples.antt =====
-- A model with three tokens that always prefers the second.
use rakka_inference.Local.Run.{pure, slice}
use rakka_inference.Base.{
  All, List, Option, Result, [], ap, arith, false, get_elem?, if◌then◌else◌, leb, length, ltb, map,
  max, none, ok, refl, some, sym, true, ℕ, ◌++◌, ◌+◌, ◌-◌, ◌/◌, ◌∙◌, ◌∷◌, ◌≡◌, ◌≢◌, ◌≤◌,
}
use rakka_inference.Base.Text.{str_eq}
use rakka_inference.Core.Batch.{SamplingParams}
use rakka_inference.Core.Error.{InferenceError}
use rakka_inference.Core.Tokens.{FinishReason}
use rakka_inference.Local.Sampling.{Floats, Randomness, best_from, sample_next, temperature_or_one}
use rakka_inference.Local.Sampling.Greedy.{IsOrdered, IsUnbeaten, sample_next-greedy}
use rakka_inference.Local.Generation.{
  Backend, Chunk, Job, Text, decode_delta, ends_with, strip_prefix,
}
use rakka_inference.Local.Generation.Step.{
  advance, emit, generated, input_of, last_logits, present_kv, stop_reason,
}
use rakka_inference.Local.Generation.Loop.{ended, run_loop, stuck}
use rakka_inference.Local.Generation.Loop.Streaming.{IsSteady}
use rakka_inference.Local.Generation.Loop.Termination.{run_loop-ends}
use rakka_inference.Local.Generation.Loop.Delivery.{IsWhole, run_loop-IsWhole}

-- Floats as numbers, with 0 for negative infinity and 1 for zero.
abbrev numbers : Floats
numbers = record {
  F = ℕ;
  zero_float = 1;
  one_float = 2;
  neg_infinity = 0;
  lt_float = ltb;
  le_float = leb;
  add = λ a b. a + b;
  sub = λ a b. a - b;
  div = λ a b. a / b;
  exp = λ a. a;
  max_float = λ a b. max a b;
}

abbrev some_weight : List ℕ → Option (Unit {0})
some_weight [] = none
some_weight (w ∷ ws) = some tt

-- The first token is always drawn.
abbrev first_drawn : Randomness numbers
first_drawn = record {
  select_nth = λ _ l. l;
  sort = λ l. l;
  Dist = Unit;
  Rng = ℕ;
  weighted_index = some_weight;
  sample = λ _ rng. (0, rng + 1);
}

raise : (a b v : ℕ) → ltb a b ≡ true → ltb a v ≡ false → ltb b v ≡ false
raise a b v h k = ground arith

lowest : (v x : ℕ) → ltb 0 v ≡ false → ltb x v ≡ false
lowest v x h = ground arith

self : (v : ℕ) → ltb v v ≡ false
self v = ground arith

numbers-IsOrdered : IsOrdered numbers
numbers-IsOrdered = record { lt_raise = raise; lt_lowest = lowest; lt_self = self }

abbrev sampling_at : ℕ → SamplingParams ℕ Text
sampling_at temperature = record {
  temperature = some temperature;
  top_p = none;
  top_k = none;
  max_tokens = some 2;
  stop = [];
  presence_penalty = none;
  frequency_penalty = none;
  seed = none;
}

sample_next-greedy_example :
    (id : ℕ) × (w : ℕ) × (sample_next numbers first_drawn {E = InferenceError}
        (7 ∷ 9 ∷ 8 ∷ [])
        (sampling_at 1)
        0
      ≡ pure (id, 0))
    × (get_elem? (7 ∷ 9 ∷ 8 ∷ []) id ≡ some w)
    × All (IsUnbeaten numbers numbers-IsOrdered w) (7 ∷ 9 ∷ 8 ∷ [])
unfolding temperature_or_one
sample_next-greedy_example =
    sample_next-greedy numbers numbers-IsOrdered first_drawn 7 (9 ∷ 8 ∷ []) (sampling_at 1) 0
      (omega arith) refl

-- The tokens are the letters from `a` on.
abbrev letters : Backend ℕ
letters = record {
  run_session = λ _.
      ok
        (λ name. if str_eq name "logits" then some (ok (1 ∷ 1 ∷ 3 ∷ [], 7 ∷ 9 ∷ 8 ∷ [])) else none);
  decode = λ tokens. ok (map (λ t. t + b'a') tokens);
}

abbrev job : Job ℕ
job = record {
  topo = record {
    input_ids_name = none;
    attention_mask_name = none;
    position_ids_name = none;
    logits_name = some "logits";
    logits_is_f32 = true;
    logits_dtype = "Float32";
    kv_layers = [];
  };
  backend = letters;
  request_id = "r";
  sampling = sampling_at 1;
  prompt_ids = 0 ∷ [];
  kv_heads = 1;
  head_dim = 1;
  max_new = 2;
  eos_id = none;
  receives = λ _. true;
}

abbrev letter : Chunk
letter = record { request_id = "r"; text_delta = b'b' ∷ []; usage = none; finish_reason = none }

abbrev chunks : List Chunk
chunks =
    letter
    ∷ letter
    ∷ record {
      request_id = "r";
      text_delta = [];
      usage =
          some (record {
            input_tokens = 1;
            output_tokens = 2;
            reasoning_tokens = 0;
            cached_tokens = 0;
          });
      finish_reason = some FinishReason.length;
    }
    ∷ []

two_letters : run_loop first_drawn job 0 ≡ ended chunks (ok tt)
unfolding run_loop advance sample_next decode_delta strip_prefix ends_with input_of last_logits
    present_kv generated emit stop_reason slice best_from
two_letters = refl

abbrev letter_of : ℕ → ℕ
letter_of t = t + b'a'

letters-append : (xs ys : List ℕ) → map letter_of (xs ++ ys) ≡ map letter_of xs ++ map letter_of ys
letters-append [] ys = refl
letters-append (x ∷ xs) ys = ap (λ l. letter_of x ∷ l) (letters-append xs ys)

same_text : (a b : Text) → ◌≡◌ {A = Result Text InferenceError} (ok a) (ok b) → a ≡ b
same_text a b e = cc

letters-IsSteady : IsSteady letters
letters-IsSteady = record {
  extends = λ early more a b known whole all. (
    map letter_of more,
    sym (same_text _ b all)
        ∙ letters-append early more
        ∙ ap (λ l. l ++ map letter_of more) (same_text _ a known),
  );
}

run_loop-ends_example :
    (run_loop first_drawn job 0 ≢ stuck)
    × ((cs : List Chunk) (r : Result (Unit {0}) InferenceError)
        → run_loop first_drawn job 0 ≡ ended cs r
        → length cs ≤ max 1 job.max_new + 1)
run_loop-ends_example = run_loop-ends first_drawn job 0 (omega arith)

run_loop-IsWhole_example : IsWhole first_drawn job chunks
run_loop-IsWhole_example =
    run_loop-IsWhole first_drawn job letters-IsSteady (λ _. refl) 0 chunks two_letters
