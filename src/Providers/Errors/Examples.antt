-- ===== src/Providers/Errors/Examples.antt =====
-- A failing server, and a body that is read as an error of each provider.
use rakka_inference.Base.{none, not, refl, some, ◌&&◌, ◌||◌, ◌≡◌}
use rakka_inference.Core.Error.{is_retryable, rate_limited}
use rakka_inference.Core.Runtime.{ProviderKind}
use rakka_inference.Providers.Errors.{
  AnthropicBody, GeminiBody, OpenAiBody, Reading, classify_anthropic_error, classify_gemini_error,
  classify_openai_error, is_blocked, is_exhausted, is_forbidden, is_too_long, read_body,
}
use rakka_inference.Providers.Errors.Retries.{by_status, errors-retried, holds}
use rakka_inference.Remote.Classify.RetryAfter.{parse_retry_after}

abbrev reading : Reading
reading = record {
  debug = λ body. "";
  to_lowercase = λ s. s;
  parse_from_rfc2822 = λ s. none;
  now = 0;
}

abbrev quota : GeminiBody
quota = record { message = "quota"; status = "RESOURCE_EXHAUSTED" }

too_many :
    classify_gemini_error reading (λ s. some quota) 400 (some "12") (some "{}")
    ≡ rate_limited ProviderKind.gemini (some 12_000_000_000)
unfolding classify_gemini_error is_exhausted parse_retry_after
too_many = refl

abbrev filtered : OpenAiBody
filtered = record { message = "blocked"; code = none; kind = some "content_filter" }

abbrev too_long : AnthropicBody
too_long = record { kind = "invalid_request_error"; message = "prompt too long" }

errors-retried_example :
    (is_retryable (classify_openai_error reading (λ s. some filtered) 503 none (some "{}"))
      ≡ by_status reading 503 none (some "{}"))
    × (is_retryable (classify_anthropic_error reading (λ s. some too_long) 503 none (some "{}")) ≡ (
        by_status reading 503 none (some "{}")
        && not (
            holds
              (λ b. is_too_long reading b || is_forbidden reading b)
              (read_body (λ s. some too_long) (some "{}")))))
    × (is_retryable (classify_gemini_error reading (λ s. some quota) 503 none (some "{}")) ≡ (
        holds (is_exhausted reading) (read_body (λ s. some quota) (some "{}"))
        || by_status reading 503 none (some "{}")
          && not (holds (is_blocked reading) (read_body (λ s. some quota) (some "{}")))))
errors-retried_example =
    errors-retried reading 503 none (some "{}") (λ s. some filtered) (λ s. some too_long)
      (λ s. some quota)
