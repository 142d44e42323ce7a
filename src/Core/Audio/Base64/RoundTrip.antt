-- ===== src/Core/Audio/Base64/RoundTrip.antt =====
-- What is encoded is decoded to itself.
use Prim.Native.String.{String}
use rakka_inference.Base.{
  All, Bool, List, Result, [], ap, arith, err, false, if◌then◌else◌, not, ok, refl, suc, true, zero,
  ℕ, ◌%◌, ◌&&◌, ◌*◌, ◌++◌, ◌+◌, ◌/◌, ◌<◌, ◌==◌, ◌^◌, ◌∙◌, ◌∷◌, ◌≡◌,
}
use rakka_inference.Core.Audio.Base64.{
  accept, decode, decode_from, encode, pad_byte, symbol, trim_end_matches, value_of,
}

-- Whether a test holds of the numbers below a bound, and that it then holds of each.
each_under : (ℕ → Bool) → ℕ → Bool
each_under test zero = true
each_under test (suc bound) = let rest = each_under test bound in if test bound then rest else false

each_under-test :
    (test : ℕ → Bool) (bound i : ℕ) → i < bound → each_under test bound ≡ true → test i ≡ true
unfolding each_under
each_under-test test zero i under e = absurd (omega arith)
each_under-test test (suc bound) i under e = ground (arith, each_under-test test bound i)

-- The table is read back, and holds no padding.
is_read : ℕ → Bool
is_read v = elim (value_of (symbol v)) [
  | ok w ↦ w == v && not (symbol v == pad_byte)
  | err e ↦ false
]

all_read : each_under is_read 64 ≡ true
unfolding each_under is_read value_of symbol
all_read = refl

IsRead : ℕ → ℕ → Type 0
IsRead c v = (value_of c ≡ ok v) × ((c == pad_byte) ≡ false)

read_cases :
    (v c : ℕ) (r : Result ℕ String)
    → elim r [ ok w ↦ w == v && not (c == pad_byte) | err e ↦ false ] ≡ true
    → (r ≡ ok v) × ((c == pad_byte) ≡ false)
read_cases v c (ok w) h = ground arith
read_cases v c (err e) h = cc

symbol-mod : (v : ℕ) → symbol v ≡ symbol (v % 64)
unfolding symbol
symbol-mod v = let e : v % 64 % 64 ≡ v % 64 = omega arith in rw (e, symbol) refl

symbol-IsRead : (v : ℕ) → IsRead (symbol v) (v % 64)
unfolding IsRead
symbol-IsRead v = rw (symbol-mod v) (
    read_cases (v % 64) (symbol (v % 64)) (value_of (symbol (v % 64)))
      (unfold is_read in each_under-test is_read 64 (v % 64) (omega arith) all_read))

-- The value that a symbol of the encoding is read as.
read : (n : ℕ) → value_of (symbol n) ≡ ok (n % 64)
unfolding IsRead
read n = (symbol-IsRead n).0

not_pad : (n : ℕ) → (symbol n == pad_byte) ≡ false
unfolding IsRead
not_pad n = (symbol-IsRead n).1

-- One round of the loop, where the rest decodes to `out`.
round :
    (c v buf bits buf' bits' : ℕ) (pushed cs : List ℕ) {out : List ℕ}
    → value_of c ≡ ok v
    → accept buf bits v ≡ (pushed, bits', buf')
    → decode_from buf' bits' cs ≡ ok out
    → decode_from buf bits (c ∷ cs) ≡ ok (pushed ++ out)
unfolding decode_from
round c v buf bits buf' bits' pushed cs read accepted rest = rw (read, accepted, rest) refl

-- The four rounds that read three bytes; the first two read one, and the first three read two.
first : (v : ℕ) → v < 64 → accept 0 0 v ≡ ([], 6, v)
unfolding accept
first v h = ground arith

second :
    (v w : ℕ)
    → v < 64
    → w < 64
    → accept v 6 w ≡ ((v * 64 + w) / 16 % 256 ∷ [], 4, (v * 64 + w) % 16)
unfolding accept
second v w h k = ground arith

third :
    (v w : ℕ) → v < 16 → w < 64 → accept v 4 w ≡ ((v * 64 + w) / 4 % 256 ∷ [], 2, (v * 64 + w) % 4)
unfolding accept
third v w h k = ground arith

fourth : (v w : ℕ) → v < 4 → w < 64 → accept v 2 w ≡ ((v * 64 + w) % 256 ∷ [], 0, 0)
unfolding accept
fourth v w h k = ground arith

digits : List ℕ → List ℕ
digits [] = []
digits (a ∷ []) = let n = a * 2 ^ 16 in symbol (n / 2 ^ 18) ∷ symbol (n / 2 ^ 12) ∷ []
digits (a ∷ b ∷ []) =
    let n = a * 2 ^ 16 + b * 2 ^ 8 in
    symbol (n / 2 ^ 18) ∷ symbol (n / 2 ^ 12) ∷ symbol (n / 2 ^ 6) ∷ []
digits (a ∷ b ∷ c ∷ rest) =
    let n = a * 2 ^ 16 + b * 2 ^ 8 + c in
    symbol (n / 2 ^ 18) ∷ symbol (n / 2 ^ 12) ∷ symbol (n / 2 ^ 6) ∷ symbol n ∷ digits rest

padding : List ℕ → List ℕ
padding [] = []
padding (a ∷ []) = pad_byte ∷ pad_byte ∷ []
padding (a ∷ b ∷ []) = pad_byte ∷ []
padding (a ∷ b ∷ c ∷ rest) = padding rest

encode-digits : (bytes : List ℕ) → encode bytes ≡ digits bytes ++ padding bytes
unfolding encode digits padding
encode-digits [] = refl
encode-digits (a ∷ []) = refl
encode-digits (a ∷ b ∷ []) = refl
encode-digits (a ∷ b ∷ c ∷ rest) = rw (encode-digits rest) refl

-- No digit is the padding, and all that follows the digits is.
digits-All : (bytes : List ℕ) → All (λ c. (c == pad_byte) ≡ false) (digits bytes)
unfolding digits
digits-All [] = tt
digits-All (a ∷ []) = (not_pad _, (not_pad _, tt))
digits-All (a ∷ b ∷ []) = (not_pad _, (not_pad _, (not_pad _, tt)))
digits-All (a ∷ b ∷ c ∷ rest) = (not_pad _, (not_pad _, (not_pad _, (not_pad _, digits-All rest))))

trim_padding : (bytes : List ℕ) → trim_end_matches pad_byte (padding bytes) ≡ []
unfolding trim_end_matches padding
trim_padding [] = refl
trim_padding (a ∷ []) = refl
trim_padding (a ∷ b ∷ []) = refl
trim_padding (a ∷ b ∷ c ∷ rest) = trim_padding rest

trim-append :
    (xs pads : List ℕ)
    → All (λ c. (c == pad_byte) ≡ false) xs
    → trim_end_matches pad_byte pads ≡ []
    → trim_end_matches pad_byte (xs ++ pads) ≡ xs
unfolding trim_end_matches
trim-append [] pads h e = e
trim-append (x ∷ xs) pads h e = rw (h.0, trim-append xs pads h.1 e) refl

decode_end : (buf bits : ℕ) → decode_from buf bits [] ≡ ok []
unfolding decode_from
decode_end buf bits = refl

first_byte : ℕ → ℕ → ℕ
first_byte m n = m % 64 * 64 + n % 64

read_byte :
    (m n : ℕ) (cs : List ℕ) {out : List ℕ}
    → decode_from (first_byte m n % 16) 4 cs ≡ ok out
    → decode_from 0 0 (symbol m ∷ symbol n ∷ cs) ≡ ok (first_byte m n / 16 % 256 ∷ out)
unfolding first_byte
read_byte m n cs e =
    round (symbol m) (m % 64) 0 0 (m % 64) 6 [] (symbol n ∷ cs) (read m)
      (first (m % 64) (omega arith))
      (round (symbol n) (n % 64) (m % 64) 6 (first_byte m n % 16) 4 (first_byte m n / 16 % 256 ∷ [])
        cs (read n) (second (m % 64) (n % 64) (omega arith) (omega arith)) e)

second_byte : ℕ → ℕ → ℕ
second_byte buf n = buf * 64 + n % 64

read_second :
    (buf n : ℕ) (cs : List ℕ) {out : List ℕ}
    → buf < 16
    → decode_from (second_byte buf n % 4) 2 cs ≡ ok out
    → decode_from buf 4 (symbol n ∷ cs) ≡ ok (second_byte buf n / 4 % 256 ∷ out)
unfolding second_byte
read_second buf n cs h e =
    round (symbol n) (n % 64) buf 4 (second_byte buf n % 4) 2 (second_byte buf n / 4 % 256 ∷ []) cs
      (read n) (third buf (n % 64) h (omega arith)) e

read_third :
    (buf n : ℕ) (cs : List ℕ) {out : List ℕ}
    → buf < 4
    → decode_from 0 0 cs ≡ ok out
    → decode_from buf 2 (symbol n ∷ cs) ≡ ok (second_byte buf n % 256 ∷ out)
unfolding second_byte
read_third buf n cs h e =
    round (symbol n) (n % 64) buf 2 0 0 (second_byte buf n % 256 ∷ []) cs (read n)
      (fourth buf (n % 64) h (omega arith)) e

decode_digits :
    (bytes : List ℕ) → All (λ b. b < 256) bytes → decode_from 0 0 (digits bytes) ≡ ok bytes
unfolding digits first_byte second_byte
decode_digits [] h = decode_end 0 0
decode_digits (a ∷ []) h =
    let n : ℕ = a * 2 ^ 16 in
    let e : first_byte (n / 2 ^ 18) (n / 2 ^ 12) / 16 % 256 ≡ a = omega (arith, h.0) in
    read_byte (n / 2 ^ 18) (n / 2 ^ 12) [] (decode_end _ 4) ∙ ap (λ (x : ℕ). ok (x ∷ [])) e
decode_digits (a ∷ b ∷ []) h =
    let n : ℕ = a * 2 ^ 16 + b * 2 ^ 8 in
    let buf = first_byte (n / 2 ^ 18) (n / 2 ^ 12) % 16 in
    let e : first_byte (n / 2 ^ 18) (n / 2 ^ 12) / 16 % 256 ≡ a = omega (arith, h.0, h.1.0) in
    let e' : second_byte buf (n / 2 ^ 6) / 4 % 256 ≡ b = omega (arith, h.0, h.1.0) in
    read_byte (n / 2 ^ 18) (n / 2 ^ 12) (symbol (n / 2 ^ 6) ∷ [])
      (read_second buf (n / 2 ^ 6) [] (omega arith) (decode_end _ 2))
    ∙ (λ i. ok (e i ∷ e' i ∷ []))
decode_digits (a ∷ b ∷ c ∷ rest) h =
    let n : ℕ = a * 2 ^ 16 + b * 2 ^ 8 + c in
    let buf = first_byte (n / 2 ^ 18) (n / 2 ^ 12) % 16 in
    let buf' = second_byte buf (n / 2 ^ 6) % 4 in
    let e : first_byte (n / 2 ^ 18) (n / 2 ^ 12) / 16 % 256 ≡ a =
      omega (arith, h.0, h.1.0, h.1.1.0) in
    let e' : second_byte buf (n / 2 ^ 6) / 4 % 256 ≡ b = omega (arith, h.0, h.1.0, h.1.1.0) in
    let e'' : second_byte buf' n % 256 ≡ c = omega (arith, h.0, h.1.0, h.1.1.0) in
    read_byte (n / 2 ^ 18) (n / 2 ^ 12) (symbol (n / 2 ^ 6) ∷ symbol n ∷ digits rest) (
      read_second buf (n / 2 ^ 6) (symbol n ∷ digits rest) (omega arith)
        (read_third buf' n (digits rest) (omega arith) (decode_digits rest h.1.1.1)))
    ∙ (λ i. ok (e i ∷ e' i ∷ e'' i ∷ rest))

-- A list of bytes, that is of numbers below 256, is encoded to a text that is decoded to the same list.
pub decode-encode : (bytes : List ℕ) → All (λ b. b < 256) bytes → decode (encode bytes) ≡ ok bytes
unfolding decode
decode-encode bytes h =
    rw
      (
        encode-digits bytes,
        trim-append (digits bytes) (padding bytes) (digits-All bytes) (trim_padding bytes),
      )
      (decode_digits bytes h)
