-- ===== src/Local/Generation/Loop.antt =====
-- crates/inference-runtime-ort/src/generate.rs: `run_loop`.
pub mod Rounds
pub mod Termination
pub mod Streaming
pub mod Delivery
use rakka_inference.Local.Run.{Run, out_of_fuel, panicked, pure, returned, ◌>>=◌}
use rakka_inference.Base.{
  List, Option, Result, [], err, if◌then◌else◌, length, map, max, none, not, ok, some, suc, zero, ℕ,
  ◌++◌, ◌+◌, ◌∷◌,
}
use rakka_inference.Core.Duration.{u32}
use rakka_inference.Core.Error.{InferenceError, bad_request}
use rakka_inference.Core.Tokens.{FinishReason}
use rakka_inference.Local.Sampling.{Floats, Randomness}
use rakka_inference.Local.Generation.{Chunk, Job, LoopState, Text, strip_prefix}
use rakka_inference.Local.Generation.Step.{advance, emit, generated, stop_reason}
use Prim.Native.String.{◌++◌ as ◌+++◌}

module _ {fl : Floats} (rand : Randomness fl) (job : Job fl.F) where
  open fl use {F}
  open rand use {Rng}

  -- How the loop ends.
  pub data Ending : Type 0 where
    finished : LoopState F Rng → FinishReason → Ending
    receiver_gone : LoopState F Rng → Ending
    broken : LoopState F Rng → InferenceError → Ending
    crashed : Ending
    unfinished : Ending

  -- A round: the new token, and the text of all that is generated.
  pub round : LoopState F Rng → Run (LoopState F Rng × Text) InferenceError
  round s = advance rand job s >>= λ s'.
      returned (job.backend.decode (generated rand job s')) >>= λ full. pure (s', full)

  decided : (LoopState F Rng → Ending) → LoopState F Rng → Option FinishReason → Ending
  decided continue s none = continue (record s { step = s.step + 1 })
  decided continue s (some reason) = finished s reason

  sent_to : (LoopState F Rng → Ending) → LoopState F Rng → Text → Option (LoopState F Rng) → Ending
  unfolding decided
  sent_to continue s full none = receiver_gone s
  sent_to continue s full (some s') = decided continue s' (stop_reason rand job s' full)

  pub settled :
      (LoopState F Rng → Ending)
      → LoopState F Rng
      → Run (LoopState F Rng × Text) InferenceError
      → Ending
  unfolding sent_to
  settled continue s (returned (ok (s', full))) = sent_to continue s' full (emit rand job s' full)
  settled continue s (returned (err e)) = broken s e
  settled continue s panicked = crashed
  settled continue s out_of_fuel = unfinished

  pub generate : ℕ → LoopState F Rng → Ending
  unfolding settled round
  generate zero s = unfinished
  generate (suc fuel) s = settled (generate fuel) s (round s)

  pub start : Rng → LoopState F Rng
  start rng = record {
    all_ids = job.prompt_ids;
    prev_full_decoded = [];
    output_tokens = 0;
    past_kv = map (λ _. ([], [])) job.topo.kv_layers;
    past_len = 0;
    step = 0;
    rng = rng;
    sent = [];
  }

  -- The text that is not yet sent.
  tail_of : Text → Text → Text
  tail_of prev full = elim (strip_prefix prev full) [ none ↦ [] | some rest ↦ rest ]

  pub last_chunk : LoopState F Rng → FinishReason → Text → Chunk
  unfolding tail_of
  last_chunk s reason full = record {
    request_id = job.request_id;
    text_delta = tail_of s.prev_full_decoded full;
    usage = some (record {
      input_tokens = u32 (length job.prompt_ids);
      output_tokens = s.output_tokens;
      reasoning_tokens = 0;
      cached_tokens = 0;
    });
    finish_reason = some reason;
  }

  -- What the receiver has taken at the end, and what `run_loop` returns.
  pub data Outcome : Type 0 where
    ended : List Chunk → Result (Unit {0}) InferenceError → Outcome
    panic : Outcome
    stuck : Outcome

  flushed : LoopState F Rng → FinishReason → Result Text InferenceError → Outcome
  unfolding last_chunk
  flushed s reason (err e) = ended s.sent (err e)
  flushed s reason (ok full) =
      ended
        (if job.receives (length s.sent) then s.sent ++ (last_chunk s reason full ∷ []) else s.sent)
        (ok tt)

  unfoldable pub flush : Ending → Outcome
  unfolding flushed
  flush (finished s reason) = flushed s reason (job.backend.decode (generated rand job s))
  flush (receiver_gone s) = ended s.sent (ok tt)
  flush (broken s e) = ended s.sent (err e)
  flush crashed = panic
  flush unfinished = stuck

  -- As many rounds as there may be tokens are enough, and the loop makes one in any case.
  unfoldable pub run_loop : Rng → Outcome
  unfolding generate start flush
  run_loop rng =
      if not job.topo.logits_is_f32
      then ended [] (
          err (
            bad_request (
              "ort: chat-style execute() only supports f32 logits in this build (probed: "
              +++ job.topo.logits_dtype +++ "). Re-export with FP32 logits or use infer().")))
      else flush (generate (max 1 job.max_new) (start rng))
