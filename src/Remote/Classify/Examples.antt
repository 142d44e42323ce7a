-- ===== src/Remote/Classify/Examples.antt =====
-- A few statuses, and headers.
use rakka_inference.Base.{Option, none, refl, some, ℕ, ◌≡◌}
use rakka_inference.Base.Text.{decimal}
use rakka_inference.Core.Runtime.{ProviderKind}
use rakka_inference.Core.Error.{internal}
use rakka_inference.Remote.Classify.{classify_http_status}
use rakka_inference.Core.Duration.{from_secs}
use rakka_inference.Remote.Classify.RetryAfter.{parse_retry_after}
use Prim.Native.String.{String}

abbrev shown : Option String → String
shown none = "None"
shown (some body) = body

unknown_status :
    classify_http_status shown ProviderKind.open_ai 404 none none
    ≡ internal "unexpected status 404: None"
unfolding classify_http_status decimal
unknown_status = refl

abbrev no_dates : String → Option ℕ
no_dates s = none

trimmed : parse_retry_after no_dates 0 (some "  3 ") ≡ some (from_secs 3)
unfolding parse_retry_after
trimmed = refl

garbage : parse_retry_after no_dates 0 (some "3 s") ≡ none
unfolding parse_retry_after
garbage = refl
