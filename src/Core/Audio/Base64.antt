-- ===== src/Core/Audio/Base64.antt =====
-- `base64_compat` of crates/inference-core/src/audio.rs. Texts are the lists of their bytes. Shifts are
-- products and quotients by powers of two; `|` of numbers with no bit in common is their sum.
pub mod RoundTrip
mod Examples
use Prim.Native.Char.{code}
use Prim.Native.String.{String}
use rakka_inference.Base.{
  Bool, List, Result, [], err, false, get_elem?, if◌then◌else◌, leb, none, ok, some, true, ℕ, ◌%◌,
  ◌&&◌, ◌*◌, ◌++◌, ◌+◌, ◌-◌, ◌/◌, ◌==◌, ◌>>=◌, ◌>>◌, ◌^◌, ◌∷◌,
}
use rakka_inference.Core.Duration.{u32}

abbrev pub codes : String → List ℕ
codes String.[] = []
codes (String.◌∷◌ c s) = code c ∷ codes s

abbrev pad_byte : ℕ
pad_byte = b'='

table : List ℕ
table = codes "ABCDEFGHIJKLMNOPQRSTUVWXYZabcdefghijklmnopqrstuvwxyz0123456789+/"

-- `TABLE[(n & 0x3f) as usize]`, which is never out of bounds.
pub symbol : ℕ → ℕ
unfolding table
symbol n = elim (get_elem? table (n % 64)) [ none ↦ 0 | some c ↦ c ]

quad : ℕ → List ℕ
quad n = symbol (n / 2 ^ 18) ∷ symbol (n / 2 ^ 12) ∷ symbol (n / 2 ^ 6) ∷ symbol n ∷ []

-- The clauses for one and two bytes are those of the remainder of `chunks_exact(3)`.
pub encode : List ℕ → List ℕ
unfolding quad
encode [] = []
encode (a ∷ []) =
    let n = a * 2 ^ 16 in symbol (n / 2 ^ 18) ∷ symbol (n / 2 ^ 12) ∷ pad_byte ∷ pad_byte ∷ []
encode (a ∷ b ∷ []) =
    let n = a * 2 ^ 16 + b * 2 ^ 8 in
    symbol (n / 2 ^ 18) ∷ symbol (n / 2 ^ 12) ∷ symbol (n / 2 ^ 6) ∷ pad_byte ∷ []
encode (a ∷ b ∷ c ∷ rest) = quad (a * 2 ^ 16 + b * 2 ^ 8 + c) ++ encode rest

is_empty : List ℕ → Bool
is_empty [] = true
is_empty (x ∷ xs) = false

-- `trim_end_matches`.
pub trim_end_matches : ℕ → List ℕ → List ℕ
unfolding is_empty
trim_end_matches c [] = []
trim_end_matches c (x ∷ xs) =
    let rest = trim_end_matches c xs in if x == c && is_empty rest then [] else x ∷ rest

pub value_of : ℕ → Result ℕ String
value_of c =
    if leb b'A' c && leb c b'Z'
    then ok (c - b'A')
    else if leb b'a' c && leb c b'z'
    then ok (c - b'a' + 26)
    else if leb b'0' c && leb c b'9'
    then ok (c - b'0' + 52)
    else if c == b'+'
    then ok 62
    else if c == b'/'
    then ok 63
    else err "invalid base64 character"

-- One round of the loop over the characters: the bytes that it pushes, `bits` and `buf`.
pub accept : ℕ → ℕ → ℕ → List ℕ × ℕ × ℕ
accept buf bits v =
    let buf' = u32 (buf * 2 ^ 6) + v in
    if leb 8 (bits + 6)
    then (buf' / 2 ^ (bits - 2) % 256 ∷ [], bits - 2, buf' % 2 ^ (bits - 2))
    else ([], bits + 6, buf')

pub decode_from : ℕ → ℕ → List ℕ → Result (List ℕ) String
decode_from buf bits [] = ok []
decode_from buf bits (c ∷ cs) = do
  v ← value_of c
  let (pushed, bits', buf') = accept buf bits v
  out ← decode_from buf' bits' cs
  ok (pushed ++ out)

pub decode : List ℕ → Result (List ℕ) String
unfolding trim_end_matches decode_from value_of accept
decode input = decode_from 0 0 (trim_end_matches pad_byte input)
