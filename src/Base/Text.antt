-- ===== src/Base/Text.antt =====
-- Messages: the text that `format!` makes of numbers, and the equality of texts.
use Prim.Native.Nat.{ℕ, zero, suc, ◌/◌, ◌%◌}
use Prim.Native.String.{String, ◌++◌}
pub use text.Mathlib.Text.{◌==◌ as str_eq}
use rakka_inference.Base.Lists.{get_elem?}
use rakka_inference.Base.Tests.{if◌then◌else◌, ◌==◌}
use mathlib.Core.List.{List, [], ◌∷◌}
use mathlib.Core.Option.{none, some}

digits : List String
digits = "0" ∷ "1" ∷ "2" ∷ "3" ∷ "4" ∷ "5" ∷ "6" ∷ "7" ∷ "8" ∷ "9" ∷ []

digit : ℕ → String
unfolding digits
digit n = elim (get_elem? digits n) [ none ↦ "" | some d ↦ d ]

-- The last `fuel` digits of `n`, in front of `rest`.
decimal_from : ℕ → ℕ → String → String
unfolding digit
decimal_from zero n rest = rest
decimal_from (suc fuel) n rest =
    let more = decimal_from fuel (n / 10) (digit (n % 10) ++ rest) in
    if n / 10 == 0 then digit (n % 10) ++ rest else more

-- A number below 2 ^ 64 has 20 digits at most.
unfoldable pub decimal : ℕ → String
unfolding decimal_from
decimal n = decimal_from 20 n ""
