-- ===== src/Local/Generation/Step/Emission.antt =====
-- What is sent after a round.
use rakka_inference.Base.{
  Bool, Option, [], arith, false, if◌then◌else◌, leb, length, length-append, none, refl, some, true,
  ℕ, ◌++◌, ◌+◌, ◌<◌, ◌∷◌, ◌≡◌, ◌≤◌,
}
use rakka_inference.Core.Tokens.{FinishReason}
use rakka_inference.Local.Sampling.{Floats, Randomness}
use rakka_inference.Local.Generation.{Job, LoopState, Text, decode_delta, is_empty}
use rakka_inference.Local.Generation.Step.{emit, remembered, stop_reason, text_chunk, told}
use mathlib.Core.Option

not_leb→lt : (a b : ℕ) → leb a b ≡ false → b < a
not_leb→lt a b e = ground arith

module _ {fl : Floats} (rand : Randomness fl) (job : Job fl.F) where
  open fl use {F}
  open rand use {Rng}

  -- One chunk more at most, and the tokens unchanged.
  pub record IsTold (s s' : LoopState F Rng) : Type 0 where
    pub same_ids : s'.all_ids ≡ s.all_ids
    pub same_count : s'.output_tokens ≡ s.output_tokens
    pub one_more : length s'.sent ≤ length s.sent + 1

  pub data IfTold (s : LoopState F Rng) : Option (LoopState F Rng) → Type 0 where
    gone : IfTold s none
    taken : (s' : LoopState F Rng) → IsTold s s' → IfTold s (some s')

  IfTold-if :
      (s : LoopState F Rng) (b : Bool) (m n : Option (LoopState F Rng))
      → IfTold s m
      → IfTold s n
      → IfTold s (if b then m else n)
  IfTold-if s true m n hm hn = hm
  IfTold-if s false m n hm hn = hn

  told-IfTold : (s : LoopState F Rng) (delta : Text) → IfTold s (told rand job s delta)
  unfolding told
  told-IfTold s delta =
      let more = record s { sent = s.sent ++ (text_chunk rand job delta ∷ []) } in
      IfTold-if s (is_empty delta) (some s) _
        (taken s (record { same_ids = refl; same_count = refl; one_more = omega arith }))
        (IfTold-if s (job.receives (length s.sent)) (some more) none
          (taken more (record {
            same_ids = refl;
            same_count = refl;
            one_more = omega (arith, length-append s.sent (text_chunk rand job delta ∷ []));
          }))
          gone)

  remembered-IfTold :
      (s : LoopState F Rng) (full : Text) (forward : Bool) (o : Option (LoopState F Rng))
      → IfTold s o
      → IfTold s (Option.map (remembered rand job full forward) o)
  unfolding remembered
  remembered-IfTold s full forward _ gone = gone
  remembered-IfTold s full true _ (taken s' h) =
      taken _ (record { same_ids = h.same_ids; same_count = h.same_count; one_more = h.one_more })
  remembered-IfTold s full false _ (taken s' h) = taken _ h

  pub emit-IfTold : (s : LoopState F Rng) (full : Text) → IfTold s (emit rand job s full)
  unfolding emit
  emit-IfTold s full =
      let (delta, forward) = decode_delta s.prev_full_decoded full in
      remembered-IfTold s full forward _ (told-IfTold s delta)

  reason_found :
      (b : Bool) (r : FinishReason) (o : Option FinishReason)
      → (if b then some r else o) ≡ none
      → (b ≡ false) × (o ≡ none)
  reason_found true r o e = absurd (cc)
  reason_found false r o e = (refl, e)

  -- The loop goes on only below the bound.
  pub stop_reason-none :
      (s : LoopState F Rng) (full : Text)
      → stop_reason rand job s full ≡ none
      → s.output_tokens < job.max_new
  unfolding stop_reason
  stop_reason-none s full e =
      let (_, more) = reason_found _ FinishReason.stop _ e in
      let (below, _) = reason_found (leb job.max_new s.output_tokens) FinishReason.length _ more in
      not_leb→lt job.max_new s.output_tokens below
