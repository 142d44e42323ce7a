-- ===== src/Local/Generation/Step.antt =====
-- crates/inference-runtime-ort/src/generate.rs: the body of the loop of `run_loop`.
pub mod Next
pub mod Emission
pub mod Extension
use rakka_inference.Local.Run.{Run, fail, panicked, pure, returned, slice, ◌>>=◌}
use rakka_inference.Base.{
  Bool, List, Option, Result, [], drop, err, false, get_elem?, if◌then◌else◌, leb, length, ltb, map,
  none, ok, replicate, some, suc, true, zero, ℕ, ◌*◌, ◌++◌, ◌+◌, ◌-◌, ◌==◌, ◌||◌, ◌∷◌,
}
use rakka_inference.Base.Text.{decimal}
use rakka_inference.Core.Duration.{u32}
use rakka_inference.Core.Error.{InferenceError, internal}
use rakka_inference.Core.Tokens.{FinishReason, stop}
use rakka_inference.Local.Sampling.{Floats, Randomness, sample_next}
use rakka_inference.Local.Generation.{
  Chunk, Job, KvLayer, LoopState, Text, Value, contains, decode_delta, floats, ids, is_empty,
}
use mathlib.Core.Option
use Prim.Native.String.{String}
use Prim.Native.String.{◌++◌ as ◌+++◌}

abbrev count_from : ℕ → ℕ → List ℕ
count_from start zero = []
count_from start (suc n) = start ∷ count_from (start + 1) n

last : List ℕ → Option ℕ
last [] = none
last (x ∷ []) = some x
last (x ∷ y ∷ ys) = last (y ∷ ys)

or_internal : {A : Type 0} → Option A → String → Result A InferenceError
or_internal none message = err (internal message)
or_internal (some a) message = ok a

or_panic : {A : Type 0} → Option A → Run A InferenceError
or_panic none = panicked
or_panic (some a) = pure a

module _ {fl : Floats} (rand : Randomness fl) (job : Job fl.F) where
  open fl use {F}
  open rand use {Rng}

  -- `cur_input`
  unfoldable pub input_of : LoopState F Rng → Run (List ℕ) InferenceError
  unfolding or_panic last
  input_of s =
      if s.step == 0
      then pure job.prompt_ids
      else (or_panic (last s.all_ids) >>= λ id. pure (id ∷ []))

  named : Option String → Value F → List (String × Value F)
  named none v = []
  named (some name) v = (name, v) ∷ []

  input_ids_name : Option String → String
  input_ids_name none = "input_ids"
  input_ids_name (some name) = name

  kv_tensors : ℕ → List KvLayer → List (List F × List F) → List (String × Value F)
  kv_tensors past_len (layer ∷ layers) ((k, v) ∷ past) =
      let shape = 1 ∷ job.kv_heads ∷ past_len ∷ job.head_dim ∷ [] in
      (layer.past_key_input, floats shape k)
      ∷ (layer.past_value_input, floats shape v)
      ∷ kv_tensors past_len layers past
  kv_tensors past_len _ _ = []

  -- The inputs of a step, in the order of `run_with_inputs`.
  pub entries : LoopState F Rng → List ℕ → List (String × Value F)
  unfolding named input_ids_name kv_tensors
  entries s cur_input =
      let total = s.past_len + length cur_input in
      (input_ids_name job.topo.input_ids_name, ids (1 ∷ length cur_input ∷ []) cur_input)
      ∷ (named job.topo.attention_mask_name (ids (1 ∷ total ∷ []) (replicate total 1))
          ++ (named job.topo.position_ids_name
                (ids (1 ∷ length cur_input ∷ []) (count_from s.past_len (length cur_input)))
              ++ kv_tensors s.past_len job.topo.kv_layers s.past_kv))

  output_at :
      (String → Option (Result (List ℕ × List F) InferenceError))
      → String
      → Result (List ℕ × List F) InferenceError
  unfolding or_internal
  output_at outputs name =
      elim (or_internal (outputs name) ("ort: missing output '" +++ name +++ "'")) [
        | err e ↦ err e
        | ok extracted ↦ extracted
      ]

  -- The logits of the last position.
  unfoldable pub last_logits : List ℕ → List F → Run (List F) InferenceError
  unfolding or_panic
  last_logits shape values =
      if ltb (length shape) 3
      then fail (
          internal (
            "ort: logits has rank "
            +++ decimal (length shape)
            +++ ", expected 3 ([batch, seq, vocab])"))
      else (or_panic (get_elem? shape (length shape - 1)) >>= λ vocab.
          or_panic (get_elem? shape (length shape - 2)) >>= λ seq.
          if seq == 0
          then panicked
          else slice values ((seq - 1) * vocab) ((seq - 1) * vocab + vocab))

  unfoldable pub present_kv :
      (String → Option (Result (List ℕ × List F) InferenceError))
      → List KvLayer
      → Run (List (List F × List F)) InferenceError
  unfolding output_at
  present_kv outputs [] = pure []
  present_kv outputs (layer ∷ layers) =
      returned (output_at outputs layer.present_key_output) >>= λ k.
      returned (output_at outputs layer.present_value_output) >>= λ v.
      present_kv outputs layers >>= λ rest. pure ((k.1, v.1) ∷ rest)

  -- A round up to the new token, which nobody has been sent.
  unfoldable pub advance : LoopState F Rng → Run (LoopState F Rng) InferenceError
  unfolding input_of entries output_at last_logits present_kv or_panic
  advance s = input_of s >>= λ cur_input.
      returned (job.backend.run_session (entries s cur_input)) >>= λ outputs.
      or_panic job.topo.logits_name >>= λ logits_name.
      returned (output_at outputs logits_name) >>= λ logits.
      last_logits logits.0 logits.1 >>= λ row.
      sample_next fl rand row job.sampling s.rng >>= λ next.
      present_kv outputs job.topo.kv_layers >>= λ past_kv. pure (record s {
        all_ids = s.all_ids ++ (next.0 ∷ []);
        output_tokens = u32 (s.output_tokens + 1);
        past_kv = past_kv;
        past_len = s.past_len + length cur_input;
        rng = next.1;
      })

  -- `&all_ids[prompt_len..]`
  unfoldable pub generated : LoopState F Rng → List ℕ
  generated s = drop (length job.prompt_ids) s.all_ids

  abbrev pub text_chunk : Text → Chunk
  text_chunk delta = record {
    request_id = job.request_id;
    text_delta = delta;
    usage = none;
    finish_reason = none;
  }

  -- Nothing is sent for an empty delta. The result is none where the receiver is gone.
  told : LoopState F Rng → Text → Option (LoopState F Rng)
  told s delta =
      if is_empty delta
      then some s
      else if job.receives (length s.sent)
      then some (record s { sent = s.sent ++ (text_chunk delta ∷ []) })
      else none

  remembered : Text → Bool → LoopState F Rng → LoopState F Rng
  remembered full true s = record s { prev_full_decoded = full }
  remembered full false s = s

  unfoldable pub emit : LoopState F Rng → Text → Option (LoopState F Rng)
  unfolding told remembered
  emit s full =
      let (delta, forward) = decode_delta s.prev_full_decoded full in
      Option.map (remembered full forward) (told s delta)

  any_stop : Text → List Text → Bool
  any_stop full [] = false
  any_stop full (pattern ∷ patterns) = contains full pattern || any_stop full patterns

  is_eos : Option ℕ → Option ℕ → Bool
  is_eos (some id) (some eos) = id == eos
  is_eos _ _ = false

  unfoldable pub stop_reason : LoopState F Rng → Text → Option FinishReason
  unfolding any_stop is_eos last
  stop_reason s full =
      if is_eos (last s.all_ids) job.eos_id
      then some FinishReason.stop
      else if leb job.max_new s.output_tokens
      then some FinishReason.length
      else if any_stop full job.sampling.stop
      then some FinishReason.stop
      else none
