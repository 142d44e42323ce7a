-- ===== src/Local/Generation/Deltas.antt =====
-- The text that is new.
use rakka_inference.Base.{
  List, [], arith, false, if◌then◌else◌, refl, some, sym, true, ℕ, ◌++◌, ◌==◌, ◌∷◌, ◌≡◌,
}
use rakka_inference.Local.Generation.{
  Chunk, Text, decode_delta, delta_of, ends_with, replacement_character, strip_prefix,
}
use mathlib.Core.List.{append_assoc}

-- The texts of the chunks, one after the other.
abbrev pub text_of : List Chunk → Text
text_of [] = []
text_of (c ∷ cs) = c.text_delta ++ text_of cs

pub text_of-append : (cs ds : List Chunk) → text_of (cs ++ ds) ≡ text_of cs ++ text_of ds
text_of-append [] ds = refl
text_of-append (c ∷ cs) ds =
    rw (text_of-append cs ds) (sym (append_assoc c.text_delta (text_of cs) (text_of ds)))

same : (n : ℕ) → n == n ≡ true
same n = ground arith

pub strip_prefix-append : (prev rest : Text) → strip_prefix prev (prev ++ rest) ≡ some rest
unfolding strip_prefix
strip_prefix-append [] rest = refl
strip_prefix-append (p ∷ ps) rest = rw (same p) (strip_prefix-append ps rest)

pub ends_with-append :
    (c : ℕ) (prev rest : Text)
    → ends_with c prev ≡ false
    → ends_with c rest ≡ false
    → ends_with c (prev ++ rest) ≡ false
unfolding ends_with
ends_with-append c [] rest hp hr = hr
ends_with-append c (p ∷ []) [] hp hr = hp
ends_with-append c (p ∷ []) (r ∷ rs) hp hr = hr
ends_with-append c (p ∷ q ∷ ps) rest hp hr = ends_with-append c (q ∷ ps) rest hp hr

-- What a text adds is sent, unless it ends in a character that is not whole.
pub decode_delta-append :
    (prev rest : Text)
    → decode_delta prev (prev ++ rest)
      ≡ (if ends_with replacement_character rest then ([], false) else (rest, true))
unfolding decode_delta delta_of
decode_delta-append prev rest = rw (strip_prefix-append prev rest, decode_delta) refl
