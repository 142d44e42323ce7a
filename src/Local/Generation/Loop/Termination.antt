-- ===== src/Local/Generation/Loop/Termination.antt =====
-- The loop ends.
use rakka_inference.Local.Run.{Run}
use rakka_inference.Base.{
  Bool, Bool-cases, List, Option, Result, [], ap, arith, err, false, if◌then◌else◌, inl, inr,
  length, length-append, max, none, not, ok, refl, some, subst, suc, true, zero, ℕ, ◌+◌, ◌<◌, ◌^◌,
  ◌∷◌, ◌≡◌, ◌≢◌, ◌≤◌,
}
use rakka_inference.Local.Run.Values.{Yields, failure, panics, value}
use rakka_inference.Core.Error.{InferenceError}
use rakka_inference.Core.Tokens.{FinishReason}
use rakka_inference.Local.Sampling.{Floats, Randomness}
use rakka_inference.Local.Generation.{Chunk, Job, LoopState, Text}
use rakka_inference.Local.Generation.Step.{emit, generated, stop_reason}
use rakka_inference.Local.Generation.Step.Next.{IsNext}
use rakka_inference.Local.Generation.Step.Emission.{
  IfTold, emit-IfTold, gone, stop_reason-none, taken,
}
use rakka_inference.Local.Generation.Loop.{
  Ending, Outcome, broken, crashed, decided, ended, finished, flush, flushed, generate, last_chunk,
  panic, receiver_gone, round, run_loop, sent_to, settled, start, stuck,
}
use rakka_inference.Local.Generation.Loop.Rounds.{round-IsNext}

module _ {fl : Floats} (rand : Randomness fl) (job : Job fl.F) where
  open fl use {F}
  open rand use {Rng}

  abbrev most : ℕ
  most = max 1 job.max_new

  -- No more chunks than tokens, and no more tokens than asked for, but one.
  record IsBounded (s : LoopState F Rng) : Type 0 where
    few_chunks : length s.sent ≤ s.output_tokens
    few_tokens : s.output_tokens ≤ most

  data Ends : Ending rand job → Type 0 where
    by_reason : (s : LoopState F Rng) (r : FinishReason) → IsBounded s → Ends (finished s r)
    by_receiver : (s : LoopState F Rng) → IsBounded s → Ends (receiver_gone s)
    by_error : (s : LoopState F Rng) (e : InferenceError) → IsBounded s → Ends (broken s e)
    by_panic : Ends crashed

  decided-Ends :
      (continue : LoopState F Rng → Ending rand job) (s : LoopState F Rng) (o : Option FinishReason)
      → IsBounded s
      → (o ≡ none → Ends (continue (record s { step = s.step + 1 })))
      → Ends (decided rand job continue s o)
  unfolding decided
  decided-Ends continue s none h k = k refl
  decided-Ends continue s (some r) h k = by_reason s r h

  sent_to-Ends :
      (continue : LoopState F Rng → Ending rand job) (s : LoopState F Rng) (full : Text)
      (o : Option (LoopState F Rng))
      → length s.sent + 1 ≤ s.output_tokens
      → s.output_tokens ≤ most
      → IfTold rand job s o
      → ((s' : LoopState F Rng)
          → IsBounded s'
          → s'.output_tokens ≡ s.output_tokens
          → s.output_tokens < job.max_new
          → Ends (continue s'))
      → Ends (sent_to rand job continue s full o)
  unfolding sent_to
  sent_to-Ends continue s full _ few within gone k =
      by_receiver s (record { few_chunks = omega arith; few_tokens = within })
  sent_to-Ends continue s full _ few within (taken s' h) k =
      let count = h.same_count in
      let more = h.one_more in
      let bounded : IsBounded s' = record { few_chunks = omega arith; few_tokens = omega arith } in
      decided-Ends continue s' (stop_reason rand job s' full) bounded (λ e.
        let below = stop_reason-none rand job s' full e in
        k (record s' { step = s'.step + 1 })
          (record { few_chunks = bounded.few_chunks; few_tokens = bounded.few_tokens }) count
          (omega arith))

  settled-Ends :
      (continue : LoopState F Rng → Ending rand job) (s : LoopState F Rng)
      (m : Run (LoopState F Rng × Text) InferenceError)
      → IsBounded s
      → s.output_tokens < most
      → most < 2 ^ 32
      → Yields {A = LoopState F Rng × Text}
          (λ r. IsNext rand job s r.0 × (job.backend.decode (generated rand job r.0) ≡ ok r.1))
          m
      → ((s' : LoopState F Rng)
          → IsBounded s'
          → s'.output_tokens ≡ s.output_tokens + 1
          → s'.output_tokens < job.max_new
          → Ends (continue s'))
      → Ends (settled rand job continue s m)
  unfolding settled
  settled-Ends continue s _ h room small (value (s', full) (next, _)) k =
      let count = next.counted in
      let sent = ap length next.same_sent in
      let few = h.few_chunks in
      sent_to-Ends continue s' full (emit rand job s' full) (omega arith) (omega arith)
        (emit-IfTold rand job s' full) (λ s'' b same below. k s'' b (omega arith) (omega arith))
  settled-Ends continue s _ h room small (failure e) k = by_error s e h
  settled-Ends continue s _ h room small panics k = by_panic

  generate-Ends :
      (fuel : ℕ) (s : LoopState F Rng)
      → IsBounded s
      → s.output_tokens < most
      → most ≤ s.output_tokens + fuel
      → most < 2 ^ 32
      → Ends (generate rand job fuel s)
  unfolding generate
  generate-Ends zero s h room enough small = absurd (omega arith)
  generate-Ends (suc fuel) s h room enough small =
      settled-Ends (generate rand job fuel) s (round rand job s) h room small
        (round-IsNext rand job s)
        (λ s' b count below. generate-Ends fuel s' b (omega arith) (omega arith) small)

  data IsFew : Outcome rand job → Type 0 where
    few :
        (chunks : List Chunk) (r : Result (Unit {0}) InferenceError)
        → length chunks ≤ most + 1
        → IsFew (ended chunks r)
    no_chunks : IsFew panic

  flushed-IsFew :
      (s : LoopState F Rng) (reason : FinishReason) (r : Result Text InferenceError)
      → IsBounded s
      → IsFew (flushed rand job s reason r)
  unfolding flushed
  flushed-IsFew s reason (err e) h = few s.sent (err e) (one_more s h)
    where
      one_more : (s : LoopState F Rng) → IsBounded s → length s.sent ≤ most + 1
      one_more s h = let f = h.few_chunks in let t = h.few_tokens in omega arith
  flushed-IsFew s reason (ok full) h =
      let f = h.few_chunks in
      let t = h.few_tokens in
      elim (Bool-cases (job.receives (length s.sent))) [
        | inl e ↦
            rw (e, flushed)
              (few _ _
                (omega (arith, length-append s.sent (last_chunk rand job s reason full ∷ []))))
        | inr e ↦ rw (e, flushed) (few _ _ (omega arith))
      ]

  flush-IsFew : (e : Ending rand job) → Ends e → IsFew (flush rand job e)
  unfolding flush
  flush-IsFew _ (by_reason s r h) = flushed-IsFew s r (job.backend.decode (generated rand job s)) h
  flush-IsFew _ (by_receiver s h) =
      few s.sent (ok tt) (let f = h.few_chunks in let t = h.few_tokens in omega arith)
  flush-IsFew _ (by_error s e h) =
      few s.sent (err e) (let f = h.few_chunks in let t = h.few_tokens in omega arith)
  flush-IsFew _ by_panic = no_chunks

  IsFew-if : (b : Bool) (x y : Outcome rand job) → IsFew x → IsFew y → IsFew (if b then x else y)
  IsFew-if true x y hx hy = hx
  IsFew-if false x y hx hy = hy

  run_loop-IsFew : (rng : Rng) → job.max_new < 2 ^ 32 → IsFew (run_loop rand job rng)
  unfolding run_loop start
  run_loop-IsFew rng small = IsFew-if (not job.topo.logits_is_f32) _ _ (few [] _ (omega arith)) (
      flush-IsFew _ (
        generate-Ends most (start rand job rng)
          (record { few_chunks = omega arith; few_tokens = omega arith }) (omega arith)
          (omega arith) (omega arith)))

  same_chunks :
      (chunks cs : List Chunk) (r q : Result (Unit {0}) InferenceError)
      → ◌≡◌ {A = Outcome rand job} (ended chunks r) (ended cs q)
      → chunks ≡ cs
  same_chunks chunks cs r q e = cc

  IsFew-ended :
      (o : Outcome rand job) (chunks : List Chunk) (r : Result (Unit {0}) InferenceError)
      → o ≡ ended chunks r
      → IsFew o
      → length chunks ≤ most + 1
  IsFew-ended o chunks r e (few cs q h) =
      subst (λ l. length l ≤ most + 1) (same_chunks cs chunks q r e) h
  IsFew-ended o chunks r e no_chunks = absurd (cc)

  IsFew-stuck : (o : Outcome rand job) → o ≡ stuck → ¬ IsFew o
  IsFew-stuck o e (few cs q h) = cc
  IsFew-stuck o e no_chunks = cc

  -- The generation always ends, also where no token is asked for, or ends in a panic of the backend's
  -- output; it never has sent more chunks than tokens were asked for (one, if none were) and a last one.
  pub run_loop-ends :
      (rng : Rng)
      → job.max_new < 2 ^ 32
      → (run_loop rand job rng ≢ stuck)
        × ((chunks : List Chunk) (r : Result (Unit {0}) InferenceError)
            → run_loop rand job rng ≡ ended chunks r
            → length chunks ≤ max 1 job.max_new + 1)
  run_loop-ends rng small = (
    λ e. IsFew-stuck _ e (run_loop-IsFew rng small),
    λ chunks r e. IsFew-ended _ chunks r e (run_loop-IsFew rng small),
  )
