-- ===== src/Local/Phonemes/Examples.antt =====
-- The voice of the source's tests.
use rakka_inference.Base.{[], err, ok, refl, ◌∷◌, ◌≡◌}
use rakka_inference.Base.Integers.{pos}
use rakka_inference.Local.Phonemes.{PhonemeMap, ids_for_text, unknown_phoneme}
use rakka_inference.Base.Maps

abbrev voice : PhonemeMap
voice = record {
  inner =
      ("_", pos 0 ∷ [])
      ∷ ("^", pos 1 ∷ [])
      ∷ ("$", pos 2 ∷ [])
      ∷ ("h", pos 10 ∷ [])
      ∷ ("e", pos 11 ∷ [])
      ∷ [];
}

wrapped :
    ids_for_text voice ("h" ∷ "e" ∷ [])
    ≡ ok (pos 1 ∷ pos 0 ∷ pos 10 ∷ pos 0 ∷ pos 11 ∷ pos 0 ∷ pos 2 ∷ [])
unfolding ids_for_text Maps.get
wrapped = refl

unknown_named : ids_for_text voice ("h" ∷ "x" ∷ []) ≡ err (unknown_phoneme "x")
unfolding ids_for_text Maps.get
unknown_named = refl
