-- ===== src/Remote/Classify/RetryAfter.antt =====
-- `parse_retry_after` of crates/inference-remote-core/src/classify.rs. The parser of dates and the clock are
-- parameters; both count seconds since 1970, and an earlier date, which is past, stands as 0.
use Prim.Native.Char.{code}
use Prim.Native.String.{String}
use rakka_inference.Base.{
  Bool, Option, false, if◌then◌else◌, leb, ltb, none, some, true, ℕ, ◌&&◌, ◌*◌, ◌+◌, ◌-◌, ◌==◌, ◌^◌,
  ◌||◌,
}
use rakka_inference.Core.Duration.{from_secs}

is_whitespace : ℕ → Bool
is_whitespace c =
    leb 9 c && leb c 13
    || c == 32
    || c == 133
    || c == 160
    || c == 5760
    || leb 8192 c && leb c 8202
    || c == 8232
    || c == 8233
    || c == 8239
    || c == 8287
    || c == 12_288

trim_start : String → String
unfolding is_whitespace
trim_start String.[] = String.[]
trim_start (String.◌∷◌ c s) =
    let rest = trim_start s in if is_whitespace (code c) then rest else String.◌∷◌ c s

is_empty : String → Bool
is_empty String.[] = true
is_empty (String.◌∷◌ c s) = false

trim_end : String → String
unfolding is_whitespace is_empty
trim_end String.[] = String.[]
trim_end (String.◌∷◌ c s) =
    let rest = trim_end s in
    if is_whitespace (code c) && is_empty rest then String.[] else String.◌∷◌ c rest

trim : String → String
unfolding trim_start trim_end
trim s = trim_start (trim_end s)

-- `parse::<u64>()`: digits, behind a plus sign or not, of a number below 2 ^ 64.
digits_value : ℕ → String → Option ℕ
digits_value acc String.[] = some acc
digits_value acc (String.◌∷◌ c s) =
    let n = acc * 10 + (code c - 48) in
    let rest = digits_value n s in
    if leb 48 (code c) && leb (code c) 57 && ltb n (2 ^ 64) then rest else none

unsigned : String → Option ℕ
unfolding digits_value
unsigned String.[] = none
unsigned (String.◌∷◌ c s) = digits_value 0 (String.◌∷◌ c s)

parse_u64 : String → Option ℕ
unfolding unsigned
parse_u64 String.[] = none
parse_u64 (String.◌∷◌ c s) = if code c == 43 then unsigned s else unsigned (String.◌∷◌ c s)

until : (now : ℕ) → Option ℕ → Option ℕ
until now none = none
until now (some date) = if ltb now date then some (from_secs (date - now)) else none

module _ (parse_from_rfc2822 : String → Option ℕ) (now : ℕ) where
  unfoldable pub parse_retry_after : Option String → Option ℕ
  unfolding parse_u64 trim until
  parse_retry_after none = none
  parse_retry_after (some v) = elim (parse_u64 (trim v)) [
    | some secs ↦ some (from_secs secs)
    | none ↦ until now (parse_from_rfc2822 (trim v))
  ]
