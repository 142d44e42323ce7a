-- ===== src/Providers/Errors/Retries.antt =====
-- Which refused requests are worth another attempt.
use Prim.Native.String.{String}
use rakka_inference.Base.{
  Bool, Bool-cases, Option, Option-cases, ap, arith, false, inl, inr, none, not, refl, some, sym,
  true, ℕ, ◌&&◌, ◌==◌, ◌||◌, ◌∙◌, ◌≡◌,
}
use rakka_inference.Core.Error.{InferenceError, is_retryable}
use rakka_inference.Core.Runtime.{ProviderKind}
use rakka_inference.Remote.Classify.{is_server_status}
use rakka_inference.Remote.Classify.Statuses.{classify_http_status_iff}
use rakka_inference.Providers.Errors.{
  AnthropicBody, GeminiBody, OpenAiBody, Reading, anthropic_upgrade, classify_anthropic_error,
  classify_gemini_error, classify_openai_error, gemini_upgrade, generic, is_blocked, is_exhausted,
  is_forbidden, is_too_long, openai_upgrade, read_body, retry_after,
}

pub holds : {B : Type 0} → (B → Bool) → Option B → Bool
holds p none = false
holds p (some b) = p b

and_true : (b : Bool) → b ≡ (b && true)
and_true true = refl
and_true false = refl

module _ (r : Reading) (status : ℕ) (header body : Option String) where
  -- The statuses of the generic table that are retried.
  abbrev pub by_status : Bool
  by_status = status == 429 || is_server_status status

  generic-retryable :
      (provider : ProviderKind) → is_retryable (generic r provider status header body) ≡ by_status
  unfolding generic
  generic-retryable provider =
      (classify_http_status_iff r.debug provider status (retry_after r header) body).0

  never_at_400 : (status == 400) ≡ true → by_status ≡ false
  never_at_400 e = ground arith

  openai_upgrade-stays :
      (b : OpenAiBody) (other : InferenceError)
      → is_retryable other ≡ false
      → is_retryable (openai_upgrade r b other) ≡ false
  unfolding openai_upgrade is_retryable
  openai_upgrade-stays b other e = ground arith

  openai-retryable :
      (parse : String → Option OpenAiBody)
      → is_retryable (classify_openai_error r parse status header body) ≡ by_status
  unfolding classify_openai_error
  openai-retryable parse =
      let other = generic-retryable ProviderKind.open_ai in
      elim (Bool-cases (status == 400)) [
        | inr elsewhere ↦ rw (elsewhere, classify_openai_error) other
        | inl bad ↦
            let never = never_at_400 bad in
            elim (Option-cases (read_body parse body)) [
              | inl unread ↦ rw (bad, unread, classify_openai_error) other
              | inr (b, read) ↦
                  rw (bad, read, classify_openai_error)
                    (openai_upgrade-stays b _ (other ∙ never) ∙ sym never)
            ]
      ]

  anthropic_upgrade-retryable :
      (b : AnthropicBody) (other : InferenceError)
      → is_retryable (anthropic_upgrade r b other)
        ≡ (is_retryable other && not (is_too_long r b || is_forbidden r b))
  unfolding anthropic_upgrade is_retryable
  anthropic_upgrade-retryable b other = ground arith

  anthropic-retryable :
      (parse : String → Option AnthropicBody)
      → is_retryable (classify_anthropic_error r parse status header body) ≡ (
          by_status
          && not (holds (λ b. is_too_long r b || is_forbidden r b) (read_body parse body)))
  unfolding classify_anthropic_error holds
  anthropic-retryable parse =
      let other = generic-retryable ProviderKind.anthropic in
      elim (Option-cases (read_body parse body)) [
        | inl unread ↦ rw (unread, classify_anthropic_error, holds) (other ∙ and_true by_status)
        | inr (b, read) ↦
            rw (read, classify_anthropic_error, holds)
              (anthropic_upgrade-retryable b _
                ∙ ap (λ x. x && not (is_too_long r b || is_forbidden r b)) other)
      ]

  gemini_upgrade-retryable :
      (b : GeminiBody) (other : InferenceError)
      → is_retryable (gemini_upgrade r b header other)
        ≡ (is_exhausted r b || is_retryable other && not (is_blocked r b))
  unfolding gemini_upgrade is_retryable
  gemini_upgrade-retryable b other = ground arith

  gemini-retryable :
      (parse : String → Option GeminiBody)
      → is_retryable (classify_gemini_error r parse status header body) ≡ (
          holds (is_exhausted r) (read_body parse body)
          || by_status && not (holds (is_blocked r) (read_body parse body)))
  unfolding classify_gemini_error holds
  gemini-retryable parse =
      let other = generic-retryable ProviderKind.gemini in
      elim (Option-cases (read_body parse body)) [
        | inl unread ↦ rw (unread, classify_gemini_error, holds) (other ∙ and_true by_status)
        | inr (b, read) ↦
            rw (read, classify_gemini_error, holds)
              (gemini_upgrade-retryable b _
                ∙ ap (λ x. is_exhausted r b || x && not (is_blocked r b)) other)
      ]

-- An error of OpenAI is retried exactly where the generic table does, by its status. One of Anthropic is
-- not where its body says that the prompt is too long or that permission is missing; and one of Gemini is
-- where its body says that a quota is exhausted, and otherwise is not where the body's message speaks
-- of safety or of being blocked, whatever the status.
pub errors-retried :
    (r : Reading) (status : ℕ) (header body : Option String)
    (of_openai : String → Option OpenAiBody) (of_anthropic : String → Option AnthropicBody)
    (of_gemini : String → Option GeminiBody)
    → (is_retryable (classify_openai_error r of_openai status header body)
        ≡ by_status r status header body)
      × (is_retryable (classify_anthropic_error r of_anthropic status header body) ≡ (
          by_status r status header body
          && not (holds (λ b. is_too_long r b || is_forbidden r b) (read_body of_anthropic body))))
      × (is_retryable (classify_gemini_error r of_gemini status header body) ≡ (
          holds (is_exhausted r) (read_body of_gemini body)
          || by_status r status header body
            && not (holds (is_blocked r) (read_body of_gemini body))))
errors-retried r status header body of_openai of_anthropic of_gemini = (
  openai-retryable r status header body of_openai,
  anthropic-retryable r status header body of_anthropic,
  gemini-retryable r status header body of_gemini,
)
