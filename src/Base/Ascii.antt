-- ===== src/Base/Ascii.antt =====
-- `str::to_ascii_lowercase`.
use Prim.Native.Nat.{◌-◌}
use Prim.Native.Char.{Char, code}
use Prim.Native.String.{String, [], ◌∷◌}
use mathlib.Core.Bool.{◌&&◌}
use mathlib.Core.Option.{none, some}
use text.Mathlib.Text.{char_at?}
use rakka_inference.Base.Tests.{if◌then◌else◌, leb}

abbrev lower_letter : Char → Char
lower_letter c = elim (char_at? "abcdefghijklmnopqrstuvwxyz" (code c - 65)) [
  | none ↦ c
  | some d ↦ d
]

to_lower : Char → Char
to_lower c = if leb 65 (code c) && leb (code c) 90 then lower_letter c else c

unfoldable pub to_ascii_lowercase : String → String
unfolding to_lower
to_ascii_lowercase [] = []
to_ascii_lowercase (c ∷ s) = to_lower c ∷ to_ascii_lowercase s
