-- ===== src/Local/Generation/Step/Extension.antt =====
-- What is sent when the decoded text grows.
use rakka_inference.Base.{
  Bool-cases, [], ap, false, inl, inr, length, refl, some, sym, true, ℕ, ◌++◌, ◌∙◌, ◌∷◌, ◌≡◌, ◌⊎◌,
}
use rakka_inference.Local.Sampling.{Floats, Randomness}
use rakka_inference.Local.Generation.{Job, LoopState, Text, ends_with, replacement_character}
use rakka_inference.Local.Generation.Deltas.{decode_delta-append, text_of, text_of-append}
use rakka_inference.Local.Generation.Step.{emit, remembered, text_chunk, told}
use mathlib.Core.Option
use mathlib.Core.List.{append-nil}

module _ {fl : Floats} (rand : Randomness fl) (job : Job fl.F) where
  open fl use {F}
  open rand use {Rng}

  -- Either nothing is sent, or the whole of what is new.
  pub record IsExtended (s : LoopState F Rng) (rest : Text) (s' : LoopState F Rng) : Type 0 where
    pub same_ids : s'.all_ids ≡ s.all_ids
    pub same_count : s'.output_tokens ≡ s.output_tokens
    pub sent_or_not :
        ((s'.prev_full_decoded ≡ s.prev_full_decoded) × (s'.sent ≡ s.sent))
        ⊎ ((ends_with replacement_character rest ≡ false)
            × (s'.prev_full_decoded ≡ s.prev_full_decoded ++ rest)
            × (text_of s'.sent ≡ text_of s.sent ++ rest))

  told_whole :
      (s : LoopState F Rng) (rest : Text)
      → ((n : ℕ) → job.receives n ≡ true)
      → ends_with replacement_character rest ≡ false
      → (s' : LoopState F Rng) × (Option.map
            (remembered rand job (s.prev_full_decoded ++ rest) true)
            (told rand job s rest)
          ≡ some s')
        × IsExtended s rest s'
  unfolding told remembered
  told_whole s [] there e = (
    record s { prev_full_decoded = s.prev_full_decoded ++ [] },
    refl,
    record { same_ids = refl; same_count = refl; sent_or_not = inr (e, refl, sym (append-nil _)) },
  )
  told_whole s (c ∷ cs) there e = (
    record s {
      prev_full_decoded = s.prev_full_decoded ++ (c ∷ cs);
      sent = s.sent ++ (text_chunk rand job (c ∷ cs) ∷ []);
    },
    rw (there (length s.sent)) refl,
    record {
      same_ids = refl;
      same_count = refl;
      sent_or_not = inr (
        e,
        refl,
        text_of-append s.sent (text_chunk rand job (c ∷ cs) ∷ [])
            ∙ ap (λ l. text_of s.sent ++ l) (append-nil _),
      );
    },
  )

  pub emit-IsExtended :
      (s : LoopState F Rng) (rest : Text)
      → ((n : ℕ) → job.receives n ≡ true)
      → (s' : LoopState F Rng) × (emit rand job s (s.prev_full_decoded ++ rest) ≡ some s')
        × IsExtended s rest s'
  unfolding emit told remembered
  emit-IsExtended s rest there = elim (Bool-cases (ends_with replacement_character rest)) [
    | inl e ↦ (
      s,
      rw (decode_delta-append s.prev_full_decoded rest, emit, e) refl,
      record { same_ids = refl; same_count = refl; sent_or_not = inl (refl, refl) },
    )
    | inr e ↦
        let (s', told_it, extended) = told_whole s rest there e in
        (s', rw (decode_delta-append s.prev_full_decoded rest, emit, e) told_it, extended)
  ]
