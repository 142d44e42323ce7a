-- ===== src/Local/Generation/Loop/Streaming.antt =====
-- What is sent, round by round.
use rakka_inference.Local.Run.{Run}
use rakka_inference.Base.{
  List, Option, [], ap, arith, false, inl, inr, length, length-append, none, ok, refl, some, subst,
  suc, sym, true, zero, ℕ, ◌++◌, ◌+◌, ◌∙◌, ◌∷◌, ◌≡◌, ◌⊎◌,
}
use rakka_inference.Local.Run.Values.{Yields, failure, panics, value}
use rakka_inference.Core.Duration.{u32}
use rakka_inference.Core.Error.{InferenceError}
use rakka_inference.Core.Tokens.{FinishReason}
use rakka_inference.Local.Sampling.{Floats, Randomness}
use rakka_inference.Local.Generation.{
  Backend, Job, LoopState, Text, ends_with, replacement_character,
}
use rakka_inference.Local.Generation.Deltas.{ends_with-append, text_of}
use rakka_inference.Local.Generation.Step.{emit, generated, stop_reason}
use rakka_inference.Local.Generation.Step.Next.{IsNext, generated_lem}
use rakka_inference.Local.Generation.Step.Extension.{IsExtended, emit-IsExtended}
use rakka_inference.Local.Generation.Loop.{
  Ending, broken, crashed, decided, finished, generate, round, sent_to, settled, unfinished,
}
use rakka_inference.Local.Generation.Loop.Rounds.{round-IsNext}
use mathlib.Core.List.{append_assoc, append-nil}

-- What the tokenizer's decoding has to do: more tokens leave a text as it is, unless it ends in a
-- character that is not whole.
pub record IsSteady {F : Type 0} (backend : Backend F) : Type 0 where
  pub extends :
      (early more : List ℕ) (a b : Text)
      → backend.decode early ≡ ok a
      → ends_with replacement_character a ≡ false
      → backend.decode (early ++ more) ≡ ok b
      → (rest : Text) × (b ≡ a ++ rest)

module _ {fl : Floats} (rand : Randomness fl) (job : Job fl.F) where
  open fl use {F}
  open rand use {Rng}

  -- The text that is sent is that of some of the tokens, those from the first on.
  pub record IsStreamed (s : LoopState F Rng) (made : List ℕ) : Type 0 where
    pub grown : s.all_ids ≡ job.prompt_ids ++ made
    pub counted : s.output_tokens ≡ u32 (length made)
    pub all_sent : text_of s.sent ≡ s.prev_full_decoded
    pub whole : ends_with replacement_character s.prev_full_decoded ≡ false
    pub decoded :
        (s.prev_full_decoded ≡ [])
        ⊎ ((early : List ℕ) × (more : List ℕ) × (made ≡ early ++ more)
            × (job.backend.decode early ≡ ok s.prev_full_decoded))

  module _ (steady : IsSteady job.backend) where
    pub extension :
        (s : LoopState F Rng) (made new : List ℕ) (full : Text)
        → IsStreamed s made
        → job.backend.decode (made ++ new) ≡ ok full
        → (rest : Text) × (full ≡ s.prev_full_decoded ++ rest)
    extension s made new full h d = elim h.decoded [
      | inl nothing ↦ (full, rw nothing refl)
      | inr (early, more, e, known) ↦
          steady.extends early (more ++ new) s.prev_full_decoded full known h.whole (
            subst (λ l. job.backend.decode l ≡ ok full)
              (ap (λ l. l ++ new) e ∙ append_assoc early more new) d)
    ]

    -- After a round.
    extended_IsStreamed :
        (s s' s'' : LoopState F Rng) (made : List ℕ) (rest : Text)
        → IsStreamed s made
        → (next : IsNext rand job s s')
        → job.backend.decode (made ++ (next.id ∷ [])) ≡ ok (s.prev_full_decoded ++ rest)
        → IsExtended rand job s' rest s''
        → IsStreamed s'' (made ++ (next.id ∷ []))
    extended_IsStreamed s s' s'' made rest h next d ext =
        let one = next.id ∷ [] in
        let ids_grown : s''.all_ids ≡ job.prompt_ids ++ (made ++ one) =
          ext.same_ids
          ∙ next.grown
          ∙ ap (λ l. l ++ one) h.grown
          ∙ append_assoc job.prompt_ids made one in
        let count : s''.output_tokens ≡ u32 (length (made ++ one)) =
          omega (arith, ext.same_count, next.counted, h.counted, length-append made one) in
        elim ext.sent_or_not [
          | inl (p, q) ↦
              let kept : s''.prev_full_decoded ≡ s.prev_full_decoded = p ∙ next.same_text in
              record {
                grown = ids_grown;
                counted = count;
                all_sent = ap text_of (q ∙ next.same_sent) ∙ h.all_sent ∙ sym kept;
                whole = rw kept h.whole;
                decoded = elim h.decoded [
                  | inl nothing ↦ inl (kept ∙ nothing)
                  | inr (early, more, e, known) ↦ inr (
                    early,
                    more ++ one,
                    ap (λ l. l ++ one) e ∙ append_assoc early more one,
                    known ∙ ap ok (sym kept),
                  )
                ];
              }
          | inr (e, p, t) ↦
              let now : s''.prev_full_decoded ≡ s.prev_full_decoded ++ rest =
                p ∙ ap (λ l. l ++ rest) next.same_text in
              record {
                grown = ids_grown;
                counted = count;
                all_sent =
                    t
                    ∙ ap (λ l. text_of l ++ rest) next.same_sent
                    ∙ ap (λ l. l ++ rest) h.all_sent
                    ∙ sym now;
                whole =
                    rw now
                      (ends_with-append replacement_character s.prev_full_decoded rest h.whole e);
                decoded = inr (made ++ one, [], sym (append-nil _), d ∙ ap ok (sym now));
              }
        ]

    pub data IsStreaming : Ending rand job → Type 0 where
      by_reason :
          (s : LoopState F Rng) (r : FinishReason) (made : List ℕ)
          → IsStreamed s made
          → IsStreaming (finished s r)
      by_error : (s : LoopState F Rng) (e : InferenceError) → IsStreaming (broken s e)
      by_panic : IsStreaming crashed
      by_fuel : IsStreaming unfinished

    decided-IsStreaming :
        (continue : LoopState F Rng → Ending rand job) (s : LoopState F Rng) (made : List ℕ)
        (o : Option FinishReason)
        → IsStreamed s made
        → ((s' : LoopState F Rng) → IsStreamed s' made → IsStreaming (continue s'))
        → IsStreaming (decided rand job continue s o)
    unfolding decided
    decided-IsStreaming continue s made none h k =
        k (record s { step = s.step + 1 })
          (record {
            grown = h.grown;
            counted = h.counted;
            all_sent = h.all_sent;
            whole = h.whole;
            decoded = h.decoded;
          })
    decided-IsStreaming continue s made (some r) h k = by_reason s r made h

    module _ (there : (n : ℕ) → job.receives n ≡ true) where
      settled-IsStreaming :
          (continue : LoopState F Rng → Ending rand job) (s : LoopState F Rng) (made : List ℕ)
          (m : Run (LoopState F Rng × Text) InferenceError)
          → IsStreamed s made
          → Yields {A = LoopState F Rng × Text}
              (λ r. IsNext rand job s r.0 × (job.backend.decode (generated rand job r.0) ≡ ok r.1))
              m
          → ((s' : LoopState F Rng) (made' : List ℕ)
              → IsStreamed s' made'
              → IsStreaming (continue s'))
          → IsStreaming (settled rand job continue s m)
      unfolding settled sent_to
      settled-IsStreaming continue s made _ h (value (s', full) (next, d)) k =
          let one = next.id ∷ [] in
          let longer : s'.all_ids ≡ job.prompt_ids ++ (made ++ one) =
            next.grown ∙ ap (λ l. l ++ one) h.grown ∙ append_assoc job.prompt_ids made one in
          let known : job.backend.decode (made ++ one) ≡ ok full =
            subst (λ l. job.backend.decode l ≡ ok full)
              (generated_lem rand job s' (made ++ one) longer) d in
          let (rest, e) = extension s made one full h known in
          let (s'', emitted, ext) = emit-IsExtended rand job s' rest there in
          let what : emit rand job s' full ≡ some s'' =
            ap (emit rand job s') (e ∙ ap (λ l. l ++ rest) (sym next.same_text)) ∙ emitted in
          subst (λ o. IsStreaming (sent_to rand job continue s' full o)) (sym what)
            (decided-IsStreaming continue s'' (made ++ one) (stop_reason rand job s'' full)
              (extended_IsStreamed s s' s'' made rest h next (known ∙ ap ok e) ext)
              (λ s3 h3. k s3 (made ++ one) h3))
      settled-IsStreaming continue s made _ h (failure e) k = by_error s e
      settled-IsStreaming continue s made _ h panics k = by_panic

      pub generate-IsStreaming :
          (fuel : ℕ) (s : LoopState F Rng) (made : List ℕ)
          → IsStreamed s made
          → IsStreaming (generate rand job fuel s)
      unfolding generate
      generate-IsStreaming zero s made h = by_fuel
      generate-IsStreaming (suc fuel) s made h =
          settled-IsStreaming (generate rand job fuel) s made (round rand job s) h
            (round-IsNext rand job s) (generate-IsStreaming fuel)
