-- ===== src/Local/Phonemes/Spelling.antt =====
-- Which texts have ids, and which ids these are.
use rakka_inference.Base.{
  All, List, Option, Option-cases, Result, [], ap, err, inl, inr, none, ok, refl, some, sym, ◌++◌,
  ◌∙◌, ◌∷◌, ◌≡◌, ◌⊎◌,
}
use rakka_inference.Base.Integers.{ℤ}
use rakka_inference.Local.Phonemes.{
  PhonemeMap, PiperError, bos_key, eos_key, ids_for_text, if_some, opening, pad_key, spell,
  unknown_phoneme,
}
use Prim.Native.String.{String}
use rakka_inference.Base.Maps
use mathlib.Core.List.{append_assoc}

module _ (m : PhonemeMap) where
  abbrev IsKnown : String → Type 0
  IsKnown c = (found : List ℤ) × (Maps.get m.inner c ≡ some found)

  -- The ids of each character, each with the padding after it.
  phonemes : List String → List ℤ
  phonemes [] = []
  phonemes (c ∷ cs) =
      (if_some (Maps.get m.inner c) ++ if_some (Maps.get m.inner pad_key)) ++ phonemes cs

  abbrev Spelled : List ℤ → List String → Result (List ℤ) PiperError → Type 0
  Spelled out text r =
      (All IsKnown text × (r ≡ ok (out ++ (phonemes text ++ if_some (Maps.get m.inner eos_key)))))
      ⊎ ((before : List String) × (c : String) × (after : List String) × (text
            ≡ before ++ (c ∷ after))
          × All IsKnown before
          × (Maps.get m.inner c ≡ none)
          × (r ≡ err (unknown_phoneme c)))

  spell_known :
      (pad : Option (List ℤ)) (out : List ℤ) (c : String) (cs : List String) (found : List ℤ)
      → Maps.get m.inner c ≡ some found
      → spell m pad out (c ∷ cs) ≡ spell m pad ((out ++ found) ++ if_some pad) cs
  unfolding spell
  spell_known pad out c cs found e = rw (e, spell) refl

  reassociated :
      (out found pad rest ending : List ℤ)
      → ((out ++ found) ++ pad) ++ (rest ++ ending) ≡ out ++ (((found ++ pad) ++ rest) ++ ending)
  reassociated out found pad rest ending = simp append_assoc refl

  spell-Spelled :
      (out : List ℤ) (text : List String)
      → Spelled out text (spell m (Maps.get m.inner pad_key) out text)
  unfolding spell phonemes
  spell-Spelled out [] = inl (tt, refl)
  spell-Spelled out (c ∷ cs) = elim (Option-cases (Maps.get m.inner c)) [
    | inl e ↦ inr ([], c, cs, refl, tt, e, rw (e, spell) refl)
    | inr (found, e) ↦
        let pad = if_some (Maps.get m.inner pad_key) in
        let step = spell_known (Maps.get m.inner pad_key) out c cs found e in
        elim (spell-Spelled ((out ++ found) ++ pad) cs) [
          | inl (known, r) ↦ inl (
            ((found, e), known),
            step
                ∙ r
                ∙ ap ok (
                    reassociated out found pad (phonemes cs) (if_some (Maps.get m.inner eos_key))
                    ∙ ap
                        (λ f.
                          out
                          ++ (((if_some f ++ pad) ++ phonemes cs)
                              ++ if_some (Maps.get m.inner eos_key)))
                        (sym e)),
          )
          | inr (before, d, after, parted, known, missing, r) ↦
              inr (
                c ∷ before,
                d,
                after,
                ap (λ l. c ∷ l) parted,
                ((found, e), known),
                missing,
                step ∙ r,
              )
        ]
  ]

  -- A text has ids exactly when each of its characters is in the map: the beginning, the characters'
  -- own, each followed by the padding, and the end. Otherwise the first one that is not is named.
  ids_for_text-Spelled :
      (text : List String)
      → Spelled
          (opening (Maps.get m.inner bos_key) (Maps.get m.inner pad_key))
          text
          (ids_for_text m text)
  unfolding ids_for_text
  ids_for_text-Spelled text =
      spell-Spelled (opening (Maps.get m.inner bos_key) (Maps.get m.inner pad_key)) text
