-- ===== src/Core/Tokens/Accumulation.antt =====
-- What the accumulated answer is made of.
use rakka_inference.Base.{
  List, Option, Option-cases, [], ap, arith, inl, inr, none, refl, some, sym, ℕ, ◌+◌, ◌<◌, ◌^◌, ◌∙◌,
  ◌∷◌, ◌≡◌,
}
use rakka_inference.Core.Duration.{u32}
use rakka_inference.Core.Tokens.{
  FinishReason, TokenChunk, TokenUsage, Tokens, add, add_usage, append, append_all, later_reason,
}
use Prim.Native.String.{String}
use Prim.Native.String.{◌++◌ as ◌+++◌}
use text.Mathlib.TextLemmas.{append_assoc, append-nil}

-- The output tokens that a chunk reports, and all of them, exactly.
abbrev pub reported : Option TokenUsage → ℕ
reported none = 0
reported (some u) = u.output_tokens

module _ {Json : Type 0} where
  pub output_total : List (TokenChunk Json) → ℕ
  output_total [] = 0
  output_total (c ∷ cs) = reported c.usage + output_total cs

  -- The texts of the chunks, one after the other.
  unfoldable pub texts : List (TokenChunk Json) → String
  texts [] = ""
  texts (c ∷ cs) = c.text_delta +++ texts cs

  append-output :
      (t : Tokens) (c : TokenChunk Json)
      → t.usage.output_tokens < 2 ^ 32
      → (append t c).usage.output_tokens ≡ u32 (t.usage.output_tokens + reported c.usage)
  unfolding append add_usage add
  append-output t c l = elim (Option-cases c.usage) [
    | inl e ↦ rw e (omega arith)
    | inr (u, e) ↦ rw e refl
  ]

  text_step :
      (t : Tokens) (c : TokenChunk Json) (rest : String)
      → (append t c).text +++ rest ≡ t.text +++ (c.text_delta +++ rest)
  unfolding append
  text_step t c rest = append_assoc t.text c.text_delta rest

  -- The reason of a chunk replaces the one before.
  pub append-finish_reason :
      (t : Tokens) (c : TokenChunk Json) (r : FinishReason)
      → c.finish_reason ≡ some r
      → (append t c).finish_reason ≡ some r
  unfolding append later_reason
  append-finish_reason t c r e = ap (later_reason t.finish_reason) e

  -- Accumulating chunks appends their texts in order, and counts their output tokens exactly, up to
  -- the wrap at 2 ^ 32.
  pub append_all_lem :
      (t : Tokens) (cs : List (TokenChunk Json))
      → t.usage.output_tokens < 2 ^ 32
      → ((append_all t cs).text ≡ t.text +++ texts cs)
        × ((append_all t cs).usage.output_tokens ≡ u32 (t.usage.output_tokens + output_total cs))
  unfolding append_all output_total texts
  append_all_lem t [] l = (sym (append-nil t.text), omega arith)
  append_all_lem t (c ∷ cs) l =
      let step = append-output t c l in
      let ih = append_all_lem (append t c) cs (omega (arith, step)) in
      (ih.0 ∙ text_step t c (texts cs), omega (arith, step, ih.1))
