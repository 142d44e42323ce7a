-- ===== src/Local/Phonemes.antt =====
-- crates/inference-runtime-piper/src/phoneme.rs: from a text to the ids of its phonemes. A text is the
-- list of its characters, each as a text of its own.
pub mod Spelling
mod Examples
use rakka_inference.Base.{List, Option, Result, [], err, none, ok, some, ◌++◌, ◌^◌, ◌∷◌}
use rakka_inference.Base.Integers.{ℤ}
use Prim.Native.String.{String}
use rakka_inference.Base.Maps

abbrev pub bos_key : String
bos_key = "^"

abbrev pub eos_key : String
eos_key = "$"

abbrev pub pad_key : String
pad_key = "_"

pub data PiperError : Type 0 where
  unknown_phoneme : (phoneme : String) → PiperError

pub record PhonemeMap : Type 0 where
  pub inner : List (String × List ℤ)

-- `if let Some(p)`
abbrev pub if_some : Option (List ℤ) → List ℤ
if_some none = []
if_some (some p) = p

-- The beginning takes the padding with it, where it is there.
pub opening : Option (List ℤ) → Option (List ℤ) → List ℤ
opening none pad = []
opening (some bos) pad = bos ++ if_some pad

-- The loop over the characters, and what follows it.
pub spell : PhonemeMap → Option (List ℤ) → List ℤ → List String → Result (List ℤ) PiperError
spell m pad out [] = ok (out ++ if_some (Maps.get m.inner eos_key))
spell m pad out (grapheme ∷ rest) = elim (Maps.get m.inner grapheme) [
  | none ↦ err (unknown_phoneme grapheme)
  | some found ↦ spell m pad ((out ++ found) ++ if_some pad) rest
]

pub ids_for_text : PhonemeMap → List String → Result (List ℤ) PiperError
unfolding opening spell
ids_for_text m text =
    let pad = Maps.get m.inner pad_key in spell m pad (opening (Maps.get m.inner bos_key) pad) text
