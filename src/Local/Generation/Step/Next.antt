-- ===== src/Local/Generation/Step/Next.antt =====
-- What a round does to the state.
use rakka_inference.Local.Run.{slice}
use rakka_inference.Base.{
  List, Option, Result, [], drop-append, get_elem?, length, none, refl, some, ℕ, ◌*◌, ◌++◌, ◌+◌,
  ◌-◌, ◌∷◌, ◌≡◌,
}
use rakka_inference.Local.Run.Values.{
  Yields, Yields-bind, Yields-if, failure, panics, result_Yields, value,
}
use rakka_inference.Core.Duration.{u32}
use rakka_inference.Core.Error.{InferenceError}
use rakka_inference.Local.Sampling.{Floats, Randomness}
use rakka_inference.Local.Generation.{Job, KvLayer, LoopState}
use rakka_inference.Local.Generation.Step.{
  advance, entries, generated, input_of, last, last_logits, or_panic, output_at, present_kv,
}
use rakka_inference.Local.Sampling.Range.{sample_next-Yields}
use Prim.Native.String.{String}

module _ {fl : Floats} (rand : Randomness fl) (job : Job fl.F) where
  open fl use {F}
  open rand use {Rng}

  -- One token more, and what has been sent unchanged.
  pub record IsNext (s s' : LoopState F Rng) : Type 0 where
    pub id : ℕ
    pub grown : s'.all_ids ≡ s.all_ids ++ (id ∷ [])
    pub counted : s'.output_tokens ≡ u32 (s.output_tokens + 1)
    pub same_text : s'.prev_full_decoded ≡ s.prev_full_decoded
    pub same_sent : s'.sent ≡ s.sent

  or_panic-Yields : {A : Type 0} (o : Option A) → Yields {A = A} (λ _. Unit) (or_panic o)
  unfolding or_panic
  or_panic-Yields none = panics
  or_panic-Yields (some a) = value a tt

  input_of-Yields : (s : LoopState F Rng) → Yields {A = List ℕ} (λ _. Unit) (input_of rand job s)
  unfolding input_of
  input_of-Yields s =
      Yields-if _ _ _ _ (value _ tt)
        (Yields-bind _ _ _ _ (or_panic-Yields (last s.all_ids)) (λ id _. value _ tt))

  slice-Yields :
      (values : List F) (a b : ℕ)
      → Yields {A = List F} {E = InferenceError} (λ _. Unit) (slice values a b)
  unfolding slice
  slice-Yields values a b = Yields-if _ _ _ _ (value _ tt) panics

  last_logits-Yields :
      (shape : List ℕ) (values : List F)
      → Yields {A = List F} (λ _. Unit) (last_logits rand job shape values)
  unfolding last_logits
  last_logits-Yields shape values = Yields-if _ _ _ _ (failure _) (
      Yields-bind _ _ _ _ (or_panic-Yields (get_elem? shape (length shape - 1))) (λ vocab _.
        Yields-bind _ _ _ _ (or_panic-Yields (get_elem? shape (length shape - 2))) (λ seq _.
          Yields-if _ _ _ _ panics
            (slice-Yields values ((seq - 1) * vocab) ((seq - 1) * vocab + vocab)))))

  present_kv-Yields :
      (outputs : String → Option (Result (List ℕ × List F) InferenceError)) (layers : List KvLayer)
      → Yields {A = List (List F × List F)} (λ _. Unit) (present_kv rand job outputs layers)
  unfolding present_kv
  present_kv-Yields outputs [] = value _ tt
  present_kv-Yields outputs (layer ∷ layers) =
      Yields-bind _ _ _ _ (result_Yields (output_at rand job outputs layer.present_key_output))
        (λ k _.
          Yields-bind _ _ _ _
            (result_Yields (output_at rand job outputs layer.present_value_output))
            (λ v _. Yields-bind _ _ _ _ (present_kv-Yields outputs layers) (λ rest _. value _ tt)))

  pub advance-IsNext : (s : LoopState F Rng) → Yields (IsNext s) (advance rand job s)
  unfolding advance
  advance-IsNext s = Yields-bind _ _ _ _ (input_of-Yields s) (λ cur_input _.
      Yields-bind _ _ _ _ (result_Yields (job.backend.run_session (entries rand job s cur_input)))
        (λ outputs _. Yields-bind _ _ _ _ (or_panic-Yields job.topo.logits_name) (λ logits_name _.
          Yields-bind _ _ _ _ (result_Yields (output_at rand job outputs logits_name)) (λ logits _.
            Yields-bind _ _ _ _ (last_logits-Yields logits.0 logits.1) (λ row _.
              Yields-bind _ _ _ _ (sample_next-Yields fl rand row job.sampling s.rng) (λ next _.
                Yields-bind _ _ _ _ (present_kv-Yields outputs job.topo.kv_layers) (λ past_kv _.
                  value _ (record {
                    id = next.0;
                    grown = refl;
                    counted = refl;
                    same_text = refl;
                    same_sent = refl;
                  }))))))))

  -- What is generated is what follows the prompt.
  pub generated_lem :
      (s : LoopState F Rng) (made : List ℕ)
      → s.all_ids ≡ job.prompt_ids ++ made
      → generated rand job s ≡ made
  unfolding generated
  generated_lem s made e = rw e (drop-append job.prompt_ids made)
