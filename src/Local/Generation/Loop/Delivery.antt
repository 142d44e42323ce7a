-- ===== src/Local/Generation/Loop/Delivery.antt =====
-- What the receiver has got, all chunks taken together.
use rakka_inference.Base.{
  Bool, List, Result, [], ap, err, false, if◌then◌else◌, inl, length, max, not, ok, refl, some,
  subst, sym, true, ℕ, ◌++◌, ◌∙◌, ◌∷◌, ◌≡◌,
}
use rakka_inference.Core.Duration.{u32}
use rakka_inference.Core.Error.{InferenceError}
use rakka_inference.Core.Tokens.{FinishReason, TokenUsage}
use rakka_inference.Local.Sampling.{Floats, Randomness}
use rakka_inference.Local.Generation.{Chunk, Job, LoopState, Text, ends_with}
use rakka_inference.Local.Generation.Deltas.{strip_prefix-append, text_of, text_of-append}
use rakka_inference.Local.Generation.Step.{generated}
use rakka_inference.Local.Generation.Step.Next.{generated_lem}
use rakka_inference.Local.Generation.Loop.{
  Ending, Outcome, ended, flush, flushed, last_chunk, panic, run_loop, start, stuck, tail_of,
}
use rakka_inference.Local.Generation.Loop.Streaming.{
  IsSteady, IsStreamed, IsStreaming, by_error, by_fuel, by_panic, by_reason, extension,
  generate-IsStreaming,
}
use mathlib.Core.List.{append-nil}

module _ {fl : Floats} (rand : Randomness fl) (job : Job fl.F) where
  open fl use {F}
  open rand use {Rng}

  -- The counts of tokens that the last chunk carries.
  abbrev usage_of : List ℕ → TokenUsage
  usage_of made = record {
    input_tokens = u32 (length job.prompt_ids);
    output_tokens = u32 (length made);
    reasoning_tokens = 0;
    cached_tokens = 0;
  }

  -- All chunks together are the text of the tokens that the last one counts.
  pub record IsWhole (chunks : List Chunk) : Type 0 where
    pub made : List ℕ
    pub first : List Chunk
    pub final : Chunk
    pub parted : chunks ≡ first ++ (final ∷ [])
    pub text : job.backend.decode made ≡ ok (text_of chunks)
    pub counted : final.usage ≡ some (usage_of made)

  data IsDelivered : Outcome rand job → Type 0 where
    delivered : (chunks : List Chunk) → IsWhole chunks → IsDelivered (ended chunks (ok tt))
    failed : (chunks : List Chunk) (e : InferenceError) → IsDelivered (ended chunks (err e))
    in_panic : IsDelivered panic
    in_fuel : IsDelivered stuck

  IsDelivered-if :
      (b : Bool) (x y : Outcome rand job)
      → IsDelivered x
      → IsDelivered y
      → IsDelivered (if b then x else y)
  IsDelivered-if true x y hx hy = hx
  IsDelivered-if false x y hx hy = hy

  same_chunks :
      (cs chunks : List Chunk)
      → ◌≡◌ {A = Outcome rand job} (ended cs (ok tt)) (ended chunks (ok tt))
      → cs ≡ chunks
  same_chunks cs chunks e = cc

  IsDelivered-ended :
      (o : Outcome rand job) (chunks : List Chunk)
      → o ≡ ended chunks (ok tt)
      → IsDelivered o
      → IsWhole chunks
  IsDelivered-ended o chunks e (delivered cs h) = subst IsWhole (same_chunks cs chunks e) h
  IsDelivered-ended o chunks e (failed cs x) = absurd (cc)
  IsDelivered-ended o chunks e in_panic = absurd (cc)
  IsDelivered-ended o chunks e in_fuel = absurd (cc)

  module _ (steady : IsSteady job.backend) (there : (n : ℕ) → job.receives n ≡ true) where
    tail_of-append : (prev rest : Text) → tail_of rand job prev (prev ++ rest) ≡ rest
    unfolding tail_of
    tail_of-append prev rest = rw (strip_prefix-append prev rest, tail_of) refl

    flushed_IsDelivered :
        (s : LoopState F Rng) (made : List ℕ) (reason : FinishReason)
        (r : Result Text InferenceError)
        → job.backend.decode made ≡ r
        → IsStreamed rand job s made
        → IsDelivered (flushed rand job s reason r)
    unfolding flushed last_chunk
    flushed_IsDelivered s made reason (err e) d h = failed s.sent e
    flushed_IsDelivered s made reason (ok full) d h =
        let (rest, e) = extension rand job steady s made [] full h (rw append-nil d) in
        let c = last_chunk rand job s reason full in
        let tail : c.text_delta ≡ rest =
          ap (tail_of rand job s.prev_full_decoded) e ∙ tail_of-append s.prev_full_decoded rest in
        let together : text_of (s.sent ++ (c ∷ [])) ≡ full =
          text_of-append s.sent (c ∷ [])
          ∙ ap (λ l. l ++ (c.text_delta ++ [])) h.all_sent
          ∙ ap (λ l. s.prev_full_decoded ++ l) (append-nil _ ∙ tail)
          ∙ sym e in
        rw (there (length s.sent), flushed)
          (delivered (s.sent ++ (c ∷ [])) (record {
            made = made;
            first = s.sent;
            final = c;
            parted = refl;
            text = d ∙ ap ok (sym together);
            counted = ap (λ n. some (record (usage_of made) { output_tokens = n })) h.counted;
          }))

    flush_IsDelivered :
        (e : Ending rand job) → IsStreaming rand job steady e → IsDelivered (flush rand job e)
    unfolding flush
    flush_IsDelivered _ (by_reason s r made h) =
        flushed_IsDelivered s made r (job.backend.decode (generated rand job s))
          (ap job.backend.decode (sym (generated_lem rand job s made h.grown))) h
    flush_IsDelivered _ (by_error s e) = failed s.sent e
    flush_IsDelivered _ by_panic = in_panic
    flush_IsDelivered _ by_fuel = in_fuel

    -- Where the receiver stays, a generation that ends well has delivered the decoded text of all its
    -- tokens, each part once, and the last chunk counts those tokens.
    pub run_loop-IsWhole :
        (rng : Rng) (chunks : List Chunk)
        → run_loop rand job rng ≡ ended chunks (ok tt)
        → IsWhole chunks
    unfolding run_loop start ends_with
    run_loop-IsWhole rng chunks e = IsDelivered-ended _ chunks e (
        IsDelivered-if (not job.topo.logits_is_f32) _ _ (failed [] _) (
          flush_IsDelivered _ (
            generate-IsStreaming rand job steady there (max 1 job.max_new) (start rand job rng) []
              (record {
                grown = sym (append-nil _);
                counted = refl;
                all_sent = refl;
                whole = refl;
                decoded = inl refl;
              }))))
