-- ===== src/Local/Sampling/Greedy.antt =====
-- Without a positive temperature, sampling takes the best token.
use rakka_inference.Local.Run.{pure}
use rakka_inference.Base.{
  All, All-append, Bool-cases, List, [], arith, false, get_elem?, get_elem?-append, if◌then◌else◌,
  inl, inr, length, length-append, refl, some, subst, suc, sym, true, zero, ℕ, ◌++◌, ◌+◌, ◌<◌, ◌^◌,
  ◌∷◌, ◌≡◌, ◌⊎◌,
}
use rakka_inference.Core.Duration.{u32}
use rakka_inference.Core.Batch.{SamplingParams}
use rakka_inference.Local.Sampling.{
  Floats, Randomness, argmax, best_from, sample_next, temperature_or_one,
}
use rakka_inference.Local.Sampling.Range.{best_from-within}
use mathlib.Core.List.{append_assoc, append-nil}

-- The order of IEEE floats: a number that is not above `a` is not above what `a` is below, and what is
-- not above negative infinity is above nothing.
pub record IsOrdered (fl : Floats) : Type 0 where
  pub lt_raise :
      (a b v : fl.F) → fl.lt_float a b ≡ true → fl.lt_float a v ≡ false → fl.lt_float b v ≡ false
  pub lt_lowest : (v x : fl.F) → fl.lt_float fl.neg_infinity v ≡ false → fl.lt_float x v ≡ false
  pub lt_self : (v : fl.F) → fl.lt_float v v ≡ false

module _ (fl : Floats) (ordered : IsOrdered fl) where
  open fl use {F, lt_float, le_float, neg_infinity, zero_float}

  abbrev pub IsUnbeaten : F → F → Type 0
  IsUnbeaten w v = lt_float w v ≡ false

  -- The best of those seen so far, if any is above negative infinity.
  record IsBest (seen : List F) (b : ℕ × F) : Type 0 where
    known : ((b.0 ≡ 0) × (b.1 ≡ neg_infinity)) ⊎ (get_elem? seen b.0 ≡ some b.1)
    unbeaten : All (IsUnbeaten b.1) seen

  All-raise :
      (a b : F) (l : List F) → lt_float a b ≡ true → All (IsUnbeaten a) l → All (IsUnbeaten b) l
  All-raise a b [] e h = tt
  All-raise a b (v ∷ vs) e h = (ordered.lt_raise a b v e h.0, All-raise a b vs e h.1)

  All-lowest : (w : F) (l : List F) → All (IsUnbeaten neg_infinity) l → All (IsUnbeaten w) l
  All-lowest w [] h = tt
  All-lowest w (v ∷ vs) h = (ordered.lt_lowest v w h.0, All-lowest w vs h.1)

  get_elem?-kept :
      (seen : List F) (v w : F) (i : ℕ)
      → get_elem? seen i ≡ some w
      → get_elem? (seen ++ (v ∷ [])) i ≡ some w
  get_elem?-kept [] v w i e = absurd (cc)
  get_elem?-kept (x ∷ xs) v w zero e = e
  get_elem?-kept (x ∷ xs) v w (suc i) e = get_elem?-kept xs v w i e

  next-IsBest :
      (seen : List F) (v : F) (b : ℕ × F)
      → IsBest seen b
      → IsBest (seen ++ (v ∷ [])) (if lt_float b.1 v then (length seen, v) else b)
  next-IsBest seen v b h = elim (Bool-cases (lt_float b.1 v)) [
    | inl e ↦ rw e (record {
      known = inr (get_elem?-append seen (v ∷ []) (length seen) 0 (omega arith));
      unbeaten =
          All-append (IsUnbeaten v) seen (v ∷ []) (All-raise b.1 v seen e h.unbeaten)
            (ordered.lt_self v, tt);
    })
    | inr e ↦ rw e (record {
      known = elim h.known [ inl k ↦ inl k | inr k ↦ inr (get_elem?-kept seen v b.1 b.0 k) ];
      unbeaten = All-append (IsUnbeaten b.1) seen (v ∷ []) h.unbeaten (e, tt);
    })
  ]

  best_from-IsBest :
      (seen ls : List F) (b : ℕ × F)
      → IsBest seen b
      → IsBest (seen ++ ls) (best_from fl (length seen) b ls)
  unfolding best_from
  best_from-IsBest seen [] b h = rw append-nil h
  best_from-IsBest seen (v ∷ vs) b h =
      let further = best_from-IsBest (seen ++ (v ∷ [])) vs _ (next-IsBest seen v b h) in
      let counted : length (seen ++ (v ∷ [])) ≡ length seen + 1 = length-append seen (v ∷ []) in
      subst
        (λ l.
          IsBest l
            (best_from fl (length seen + 1) (if lt_float b.1 v then (length seen, v) else b) vs))
        (append_assoc seen (v ∷ []) vs)
        (subst
          (λ n.
            IsBest (seen ++ (v ∷ []) ++ vs)
              (best_from fl n (if lt_float b.1 v then (length seen, v) else b) vs))
          counted further)

  chosen :
      (l : F) (ls : List F) (b : ℕ × F)
      → IsBest (l ∷ ls) b
      → (w : F) × (get_elem? (l ∷ ls) b.0 ≡ some w) × All (IsUnbeaten w) (l ∷ ls)
  chosen l ls (i, b) h = elim h.known [
    | inl (first, lowest) ↦ (
      l,
      subst (λ j. get_elem? (l ∷ ls) j ≡ some l) (sym first) refl,
      All-lowest l (l ∷ ls) (subst (λ x. All (IsUnbeaten x) (l ∷ ls)) lowest h.unbeaten),
    )
    | inr there ↦ (b, there, h.unbeaten)
  ]

  -- With a temperature that is not positive, the token is one whose logit no other logit exceeds.
  pub sample_next-greedy :
      (rand : Randomness fl) {E Text : Type 0} (l : F) (ls : List F)
      (params : SamplingParams F Text) (rng : rand.Rng)
      → length (l ∷ ls) < 2 ^ 32
      → le_float (temperature_or_one fl rand params.temperature) zero_float ≡ true
      → (id : ℕ) × (w : F) × (sample_next fl rand {E = E} (l ∷ ls) params rng ≡ pure (id, rng))
        × (get_elem? (l ∷ ls) id ≡ some w)
        × All (IsUnbeaten w) (l ∷ ls)
  unfolding sample_next argmax
  sample_next-greedy rand l ls params rng h cold =
      let b = best_from fl 0 (0, neg_infinity) (l ∷ ls) in
      let best =
        best_from-IsBest [] (l ∷ ls) (0, neg_infinity)
          (record { known = inl (refl, refl); unbeaten = tt }) in
      let (w, there, unbeaten) = chosen l ls b best in
      let below =
        best_from-within fl (length (l ∷ ls)) 0 (0, neg_infinity) (l ∷ ls) (omega arith)
          (omega arith) in
      let whole : u32 b.0 ≡ b.0 = omega (arith, below) in
      (argmax fl (l ∷ ls), w, rw (cold, sample_next) refl, rw whole there, unbeaten)
