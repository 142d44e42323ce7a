-- ===== src/Local/Generation.antt =====
-- crates/inference-runtime-ort/src/generate.rs: the loop that generates tokens and streams their text.
-- A text is the list of its characters: `len` is compared only where one text begins with the other.
pub mod Deltas
mod Examples
pub mod Step
pub mod Loop
use rakka_inference.Base.{
  Bool, List, Option, Result, [], false, if◌then◌else◌, none, some, true, ℕ, ◌==◌, ◌||◌, ◌∷◌,
}
use rakka_inference.Core.Batch.{SamplingParams}
use rakka_inference.Core.Error.{InferenceError}
use rakka_inference.Core.Tokens.{FinishReason, TokenUsage}
use Prim.Native.String.{String}
use Prim.Native.String.{◌++◌ as ◌+++◌}

abbrev pub Text : Type 0
Text = List ℕ

abbrev pub replacement_character : ℕ
replacement_character = 65_533

pub strip_prefix : Text → Text → Option Text
strip_prefix [] full = some full
strip_prefix (p ∷ ps) [] = none
strip_prefix (p ∷ ps) (c ∷ cs) = let rest = strip_prefix ps cs in if p == c then rest else none

pub ends_with : ℕ → Text → Bool
ends_with last [] = false
ends_with last (c ∷ []) = c == last
ends_with last (c ∷ d ∷ cs) = ends_with last (d ∷ cs)

starts_with : Text → Text → Bool
unfolding strip_prefix
starts_with prefix text = elim (strip_prefix prefix text) [ none ↦ false | some _ ↦ true ]

pub contains : Text → Text → Bool
unfolding starts_with
contains [] pattern = starts_with pattern []
contains (c ∷ cs) pattern = starts_with pattern (c ∷ cs) || contains cs pattern

abbrev pub is_empty : Text → Bool
is_empty [] = true
is_empty (_ ∷ _) = false

delta_of : Text → Option Text → Text × Bool
unfolding ends_with
delta_of full none = (full, true)
delta_of full (some suffix) =
    if ends_with replacement_character suffix then ([], false) else (suffix, true)

pub decode_delta : Text → Text → Text × Bool
unfolding delta_of strip_prefix
decode_delta prev full = delta_of full (strip_prefix prev full)

pub record KvLayer : Type 0 where
  pub past_key_input : String
  pub past_value_input : String
  pub present_key_output : String
  pub present_value_output : String

-- The part of `Topology` that the loop reads; `logits_dtype` is the text of the probed type.
pub record Topology : Type 0 where
  pub input_ids_name : Option String
  pub attention_mask_name : Option String
  pub position_ids_name : Option String
  pub logits_name : Option String
  pub logits_is_f32 : Bool
  pub logits_dtype : String
  pub kv_layers : List KvLayer

-- A `TokenChunk` with no delta of a tool call.
pub record Chunk : Type 0 where
  pub request_id : String
  pub text_delta : Text
  pub usage : Option TokenUsage
  pub finish_reason : Option FinishReason

-- A tensor: its shape and its elements.
pub data Value (F : Type 0) : Type 0 where
  ids : List ℕ → List ℕ → Value F
  floats : List ℕ → List F → Value F

-- The crates `ort` and `tokenizers`: the session, with the making of the tensors, and the decoding with
-- special tokens skipped. An output that is there may fail to be extracted as floats.
pub record Backend (F : Type 0) : Type 0 where
  pub run_session :
      List (String × Value F)
      → Result (String → Option (Result (List ℕ × List F) InferenceError)) InferenceError
  pub decode : List ℕ → Result Text InferenceError

-- The arguments of `run_loop`. A chunk is taken as long as the receiver is there.
pub record Job (F : Type 0) : Type 0 where
  pub topo : Topology
  pub backend : Backend F
  pub request_id : String
  pub sampling : SamplingParams F Text
  pub prompt_ids : List ℕ
  pub kv_heads : ℕ
  pub head_dim : ℕ
  pub max_new : ℕ
  pub eos_id : Option ℕ
  pub receives : ℕ → Bool

-- The local variables of `run_loop`, and the chunks that the receiver has taken.
pub record LoopState (F Rng : Type 0) : Type 0 where
  pub all_ids : List ℕ
  pub prev_full_decoded : Text
  pub output_tokens : ℕ
  pub past_kv : List (List F × List F)
  pub past_len : ℕ
  pub step : ℕ
  pub rng : Rng
  pub sent : List Chunk
