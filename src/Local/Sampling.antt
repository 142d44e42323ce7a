-- ===== src/Local/Sampling.antt =====
-- crates/inference-runtime-ort/src/sampling.rs: from the logits of a step to the next token.
pub mod Range
pub mod Greedy
use rakka_inference.Local.Run.{Run, panicked, pure}
use rakka_inference.Base.{
  Bool, List, Option, [], get_elem?, if◌then◌else◌, length, ltb, map, none, some, take, ℕ, ◌&&◌,
  ◌+◌, ◌-◌, ◌∷◌,
}
use rakka_inference.Core.Duration.{u32}
use rakka_inference.Core.Batch.{SamplingParams}

-- The floats of 32 bits, as far as sampling uses them. A comparison with no number is false.
pub record Floats : Type 1 where
  pub F : Type 0
  pub zero_float : F
  pub one_float : F
  pub neg_infinity : F
  pub lt_float : F → F → Bool
  pub le_float : F → F → Bool
  pub add : F → F → F
  pub sub : F → F → F
  pub div : F → F → F
  pub exp : F → F
  pub max_float : F → F → F

-- The standard library's `select_nth_unstable_by` and `sort_by`, both by falling score, and what the
-- crate `rand` does: `WeightedIndex::new`, `sample`, with the generator after it.
pub record Randomness (fl : Floats) : Type 1 where
  pub select_nth : ℕ → List (ℕ × fl.F) → List (ℕ × fl.F)
  pub sort : List (ℕ × fl.F) → List (ℕ × fl.F)
  pub Dist : Type 0
  pub Rng : Type 0
  pub weighted_index : List fl.F → Option Dist
  pub sample : Dist → Rng → ℕ × Rng

module _ (fl : Floats) where
  open fl use {
    F, zero_float, one_float, neg_infinity, lt_float, le_float, add, sub, div, exp, max_float,
  }

  -- `.iter().enumerate().map(|(i, l)| (i as u32, l / temperature))`, from an index on.
  pub scaled : F → ℕ → List F → List (ℕ × F)
  scaled temperature i [] = []
  scaled temperature i (l ∷ ls) = (u32 i, div l temperature) ∷ scaled temperature (i + 1) ls

  -- The fold of `argmax`, from an index on.
  unfoldable pub best_from : ℕ → ℕ × F → List F → ℕ × F
  best_from i (best_i, best) [] = (best_i, best)
  best_from i (best_i, best) (v ∷ vs) =
      best_from (i + 1) (if lt_float best v then (i, v) else (best_i, best)) vs

  pub argmax : List F → ℕ
  argmax logits = u32 (best_from 0 (0, neg_infinity) logits).0

  sum_from : F → List (ℕ × F) → F
  sum_from acc [] = acc
  sum_from acc ((_, w) ∷ ws) = sum_from (add acc w) ws

  largest : F → List (ℕ × F) → F
  largest acc [] = acc
  largest acc ((_, l) ∷ ls) = largest (max_float acc l) ls

  pub scores : (F → F) → List (ℕ × F) → List (ℕ × F)
  scores f [] = []
  scores f ((t, l) ∷ ls) = (t, f l) ∷ scores f ls

  -- `if s > 0.0 { for (_, w) in &mut probs { *w /= s; } }`
  pub normalised : List (ℕ × F) → List (ℕ × F)
  unfolding sum_from
  normalised probs =
      let s = sum_from zero_float probs in
      if lt_float zero_float s then scores (λ w. div w s) probs else probs

  pub softmax : List (ℕ × F) → List (ℕ × F)
  unfolding largest
  softmax scored =
      let top = largest neg_infinity scored in normalised (scores (λ l. exp (sub l top)) scored)

  -- How many of the likeliest tokens make up the probability `p`, from an index on.
  pub cutoff : F → F → ℕ → List (ℕ × F) → ℕ
  cutoff p acc i [] = i
  cutoff p acc i ((_, prob) ∷ probs) =
      let later = cutoff p (add acc prob) (i + 1) probs in
      if le_float p (add acc prob) then i + 1 else later

  module _ (rand : Randomness fl) where
    open rand use {select_nth, sort, Rng, weighted_index, sample}

    pub keep_top_k : Option ℕ → List (ℕ × F) → List (ℕ × F)
    keep_top_k none scored = scored
    keep_top_k (some k) scored =
        if ltb k (length scored) && ltb 0 k then take k (select_nth (k - 1) scored) else scored

    pub keep_top_p : Option F → List (ℕ × F) → List (ℕ × F)
    keep_top_p none probs = probs
    keep_top_p (some p) probs =
        if le_float zero_float p && lt_float p one_float
        then normalised (take (cutoff p zero_float 0 (sort probs)) (sort probs))
        else probs

    first_token : List (ℕ × F) → List F → ℕ
    unfolding argmax
    first_token [] logits = argmax logits
    first_token ((t, _) ∷ _) logits = t

    token_found : {E : Type 0} → Rng → Option (ℕ × F) → Run (ℕ × Rng) E
    token_found rng none = panicked
    token_found rng (some (t, _)) = pure (t, rng)

    -- `probs[i].0`
    pub token_at : {E : Type 0} → List (ℕ × F) → ℕ × Rng → Run (ℕ × Rng) E
    unfolding token_found
    token_at probs (i, rng) = token_found rng (get_elem? probs i)

    pub drawn_from : {E : Type 0} → List (ℕ × F) → List F → Rng → Option rand.Dist → Run (ℕ × Rng) E
    unfolding first_token token_at
    drawn_from probs logits rng none = pure (first_token probs logits, rng)
    drawn_from probs logits rng (some dist) = token_at probs (sample dist rng)

    pub drawn : {E : Type 0} → List (ℕ × F) → List F → Rng → Run (ℕ × Rng) E
    unfolding drawn_from
    drawn probs logits rng = drawn_from probs logits rng (weighted_index (map (λ e. e.1) probs))

    unfoldable pub temperature_or_one : Option F → F
    temperature_or_one none = one_float
    temperature_or_one (some t) = t

    unfoldable pub sample_next :
        {E Text : Type 0} → List F → SamplingParams F Text → Rng → Run (ℕ × Rng) E
    unfolding argmax scaled softmax keep_top_k keep_top_p drawn temperature_or_one
    sample_next logits params rng =
        let temperature = temperature_or_one params.temperature in
        if le_float temperature zero_float
        then pure (argmax logits, rng)
        else drawn
            (keep_top_p params.top_p
              (softmax (keep_top_k params.top_k (scaled temperature 0 logits))))
            logits rng
