-- ===== src/Local/Sampling/Range.antt =====
-- Sampling gives a token of the vocabulary.
use rakka_inference.Local.Run.{pure}
use rakka_inference.Base.{
  All, All-get_elem?, All-take, Bool, Bool-cases, List, Option, Option-cases, [], arith, false,
  get_elem?, get_elem?-length, if◌then◌else◌, inl, inr, length, length-map, map, none, refl, some,
  true, ℕ, ◌+◌, ◌-◌, ◌<◌, ◌^◌, ◌∷◌, ◌≡◌, ◌≤◌,
}
use rakka_inference.Core.Batch.{SamplingParams}
use rakka_inference.Local.Sampling.{
  Floats, Randomness, argmax, best_from, cutoff, drawn, drawn_from, first_token, keep_top_k,
  keep_top_p, normalised, sample_next, scaled, scores, softmax, temperature_or_one, token_at,
  token_found,
}
use rakka_inference.Local.Run.Values.{Yields, Yields-if, panics, value}

-- The documented behaviour of the library's functions, as far as the range of the tokens rests on it.
record IsLawful {fl : Floats} (rand : Randomness fl) : Type 1 where
  pub select_nth-All :
      (P : ℕ × fl.F → Type 0) (k : ℕ) (l : List (ℕ × fl.F)) → All P l → All P (rand.select_nth k l)
  pub sort-All : (P : ℕ × fl.F → Type 0) (l : List (ℕ × fl.F)) → All P l → All P (rand.sort l)
  pub sample_lt :
      (ws : List fl.F) (d : rand.Dist) (rng : rand.Rng)
      → rand.weighted_index ws ≡ some d
      → (rand.sample d rng).0 < length ws

All-if :
    {A : Type 0} (P : A → Type 0) (b : Bool) (l m : List A)
    → All P l
    → All P m
    → All P (if b then l else m)
All-if P true l m hl hm = hl
All-if P false l m hl hm = hm

module _ (fl : Floats) (n : ℕ) where
  open fl use {F, lt_float, zero_float}

  abbrev IsToken : ℕ × F → Type 0
  IsToken e = e.0 < n

  scaled-All :
      (temperature : F) (i : ℕ) (ls : List F)
      → i + length ls ≤ n
      → n < 2 ^ 32
      → All IsToken (scaled fl temperature i ls)
  unfolding scaled
  scaled-All temperature i [] h k = tt
  scaled-All temperature i (l ∷ ls) h k =
      (omega arith, scaled-All temperature (i + 1) ls (omega arith) k)

  scores-All : (f : F → F) (l : List (ℕ × F)) → All IsToken l → All IsToken (scores fl f l)
  unfolding scores
  scores-All f [] h = tt
  scores-All f ((t, w) ∷ l) h = (h.0, scores-All f l h.1)

  normalised-All : (l : List (ℕ × F)) → All IsToken l → All IsToken (normalised fl l)
  unfolding normalised
  normalised-All l h = All-if IsToken _ _ _ (scores-All _ l h) h

  softmax-All : (l : List (ℕ × F)) → All IsToken l → All IsToken (softmax fl l)
  unfolding softmax
  softmax-All l h = normalised-All _ (scores-All _ l h)

  module _ (rand : Randomness fl) (lawful : IsLawful rand) where
    open rand use {Rng, select_nth, sort, weighted_index, sample}

    keep_top_k-All :
        (k : Option ℕ) (l : List (ℕ × F)) → All IsToken l → All IsToken (keep_top_k fl rand k l)
    unfolding keep_top_k
    keep_top_k-All none l h = h
    keep_top_k-All (some k) l h =
        All-if IsToken _ _ _ (All-take IsToken k _ (lawful.select_nth-All IsToken (k - 1) l h)) h

    keep_top_p-All :
        (p : Option F) (l : List (ℕ × F)) → All IsToken l → All IsToken (keep_top_p fl rand p l)
    unfolding keep_top_p
    keep_top_p-All none l h = h
    keep_top_p-All (some p) l h =
        All-if IsToken _ _ _
          (normalised-All _
            (All-take IsToken (cutoff fl p zero_float 0 (sort l)) _ (lawful.sort-All IsToken l h)))
          h

    token_at-some :
        {E : Type 0} (probs : List (ℕ × F)) (r : ℕ × Rng) (x : ℕ × F)
        → get_elem? probs r.0 ≡ some x
        → token_at fl rand {E = E} probs r ≡ pure (x.0, r.1)
    unfolding token_at
    token_at-some probs (i, rng) x e = rw (e, token_at) refl

    drawn-within :
        {E : Type 0} (probs : List (ℕ × F)) (logits : List F) (rng : Rng)
        → All IsToken probs
        → argmax fl logits < n
        → (r : ℕ × Rng) × (drawn fl rand {E = E} probs logits rng ≡ pure r) × (r.0 < n)
    unfolding drawn
    drawn-within probs logits rng h best =
        elim (Option-cases (weighted_index (map (λ e. e.1) probs))) [
          | inl e ↦ ((first_token fl rand probs logits, rng), rw (e, drawn) refl, first probs h)
          | inr (d, e) ↦
              let inside : (sample d rng).0 < length probs =
                omega (arith, lawful.sample_lt _ d rng e, length-map (λ (x : ℕ × F). x.1) probs) in
              let (x, there) = get_elem?-length probs (sample d rng).0 inside in
              (
                (x.0, (sample d rng).1),
                rw (e, drawn) (token_at-some probs (sample d rng) x there),
                All-get_elem? IsToken probs _ x h there,
              )
        ]
      where
        first : (probs : List (ℕ × F)) → All IsToken probs → first_token fl rand probs logits < n
        first [] h = best
        first ((t, w) ∷ l) h = h.0

module _ (fl : Floats) where
  open fl use {F, lt_float, le_float, neg_infinity, zero_float}

  pub best_from-within :
      (n i : ℕ) (b : ℕ × F) (ls : List F)
      → b.0 < n
      → i + length ls ≤ n
      → (best_from fl i b ls).0 < n
  unfolding best_from
  best_from-within n i b [] h k = h
  best_from-within n i b (v ∷ vs) h k =
      best_from-within n (i + 1) (if lt_float b.1 v then (i, v) else b) vs
        (within_if (lt_float b.1 v)) (omega arith)
    where
      within_if : (c : Bool) → (if c then (i, v) else b).0 < n
      within_if true = omega arith
      within_if false = h

  argmax-within :
      (l : F) (ls : List F) → length (l ∷ ls) < 2 ^ 32 → argmax fl (l ∷ ls) < length (l ∷ ls)
  unfolding argmax
  argmax-within l ls h =
      let found =
        best_from-within (length (l ∷ ls)) 0 (0, neg_infinity) (l ∷ ls) (omega arith)
          (omega arith) in
      omega (arith, found)

  token_found-Yields :
      (rand : Randomness fl) {E : Type 0} (rng : rand.Rng) (o : Option (ℕ × F))
      → Yields {A = ℕ × rand.Rng} (λ _. Unit) (token_found fl rand {E = E} rng o)
  unfolding token_found
  token_found-Yields rand rng none = panics
  token_found-Yields rand rng (some t) = value _ tt

  drawn_from-Yields :
      (rand : Randomness fl) {E : Type 0} (probs : List (ℕ × F)) (logits : List F) (rng : rand.Rng)
      (o : Option rand.Dist)
      → Yields {A = ℕ × rand.Rng} (λ _. Unit) (drawn_from fl rand {E = E} probs logits rng o)
  unfolding drawn_from token_at
  drawn_from-Yields rand probs logits rng none = value _ tt
  drawn_from-Yields rand probs logits rng (some dist) =
      token_found-Yields rand (rand.sample dist rng).1 (get_elem? probs (rand.sample dist rng).0)

  drawn-Yields :
      (rand : Randomness fl) {E : Type 0} (probs : List (ℕ × F)) (logits : List F) (rng : rand.Rng)
      → Yields {A = ℕ × rand.Rng} (λ _. Unit) (drawn fl rand {E = E} probs logits rng)
  unfolding drawn
  drawn-Yields rand probs logits rng =
      drawn_from-Yields rand probs logits rng (rand.weighted_index (map (λ e. e.1) probs))

  -- Whatever the parameters, the token is one of the vocabulary, if there is one.
  sample_next-within :
      (rand : Randomness fl)
      → IsLawful rand
      → {E Text : Type 0} (l : F) (ls : List F) (params : SamplingParams F Text) (rng : rand.Rng)
      → length (l ∷ ls) < 2 ^ 32
      → (r : ℕ × rand.Rng) × (sample_next fl rand {E = E} (l ∷ ls) params rng ≡ pure r)
        × (r.0 < length (l ∷ ls))
  unfolding sample_next
  sample_next-within rand lawful l ls params rng h =
      elim (Bool-cases (le_float (temperature_or_one fl rand params.temperature) zero_float)) [
        | inl e ↦ ((argmax fl (l ∷ ls), rng), rw (e, sample_next) refl, argmax-within l ls h)
        | inr e ↦
            let n = length (l ∷ ls) in
            let likeliest = keep_top_k-All fl n rand lawful params.top_k _ (
              scaled-All fl n (temperature_or_one fl rand params.temperature) 0 (l ∷ ls)
                (omega arith) h) in
            rw (e, sample_next)
              (drawn-within fl n rand lawful _ (l ∷ ls) rng
                (keep_top_p-All fl n rand lawful params.top_p _ (softmax-All fl n _ likeliest))
                (argmax-within l ls h))
      ]

  -- Whatever the library's functions do, nothing in the sampling loops.
  pub sample_next-Yields :
      (rand : Randomness fl) {E Text : Type 0} (logits : List F) (params : SamplingParams F Text)
      (rng : rand.Rng)
      → Yields {A = ℕ × rand.Rng} (λ _. Unit) (sample_next fl rand {E = E} logits params rng)
  unfolding sample_next
  sample_next-Yields rand logits params rng =
      Yields-if _ _ _ _ (value _ tt) (drawn-Yields rand _ logits rng)
