-- ===== src/Providers/Chunking/Slices.antt =====
-- What the slices are.
use Prim.Native.Nat.{min}
use rakka_inference.Base.{
  Bool-cases, List, [], ap, arith, drop, inl, inr, length, ltb, refl, some, suc, sym, take, zero, ℕ,
  ◌++◌, ◌+◌, ◌-◌, ◌<◌, ◌∙◌, ◌∷◌, ◌≡◌, ◌≢◌, ◌≤◌,
}
use rakka_inference.Providers.Chunking.{cut, slices}

unfoldable pub joined : List (List ℕ × ℕ) → List ℕ
joined [] = []
joined ((piece, end) ∷ rest) = piece ++ joined rest

-- The pieces are `bytes` in order, none is empty or longer than `size`, and exactly the last one
-- ends where `bytes` does.
unfoldable pub AreWithin : ℕ → ℕ → List (List ℕ × ℕ) → Type 0
AreWithin size total [] = Unit
AreWithin size total ((piece, end) ∷ []) =
    (0 < length piece) × (length piece ≤ size) × (end ≡ total)
AreWithin size total ((piece, end) ∷ p ∷ rest) =
    ((0 < length piece) × (length piece ≤ size) × (end < total)) × AreWithin size total (p ∷ rest)

pub record AreSlices (size offset : ℕ) (bytes : List ℕ) (pieces : List (List ℕ × ℕ)) : Type 0 where
  pub whole : joined pieces ≡ drop offset bytes
  pub within : AreWithin size (length bytes) pieces
  pub some_left : offset < length bytes → pieces ≢ []
  pub none_over : pieces ≢ [] → offset < length bytes

module _ {ℓ} {A : Type ℓ} where
  take-drop : (k : ℕ) (xs : List A) → take k xs ++ drop k xs ≡ xs
  take-drop zero xs = refl
  take-drop (suc k) [] = refl
  take-drop (suc k) (x ∷ xs) = ap (λ l. x ∷ l) (take-drop k xs)

  drop-nil : (n : ℕ) → drop {A = A} n [] ≡ []
  drop-nil zero = refl
  drop-nil (suc n) = refl

  drop-drop : (i k : ℕ) (xs : List A) → drop k (drop i xs) ≡ drop (i + k) xs
  drop-drop zero k xs = let e : 0 + k ≡ k = omega arith in rw e refl
  drop-drop (suc i) k [] = drop-nil k ∙ sym (drop-nil (suc i + k))
  drop-drop (suc i) k (x ∷ xs) =
      let e : suc i + k ≡ suc (i + k) = omega arith in rw e (drop-drop i k xs)

  length-take-drop : (i k : ℕ) (xs : List A) → i + k ≤ length xs → length (take k (drop i xs)) ≡ k
  length-take-drop zero zero xs h = refl
  length-take-drop zero (suc k) [] h = omega arith
  length-take-drop zero (suc k) (x ∷ xs) h = omega (arith, length-take-drop zero k xs (omega arith))
  length-take-drop (suc i) k [] h = omega arith
  length-take-drop (suc i) k (x ∷ xs) h = length-take-drop i k xs (omega arith)

  drop-all : (i : ℕ) (xs : List A) → length xs ≤ i → drop i xs ≡ []
  drop-all zero [] h = refl
  drop-all zero (x ∷ xs) h = absurd (omega arith)
  drop-all (suc i) [] h = refl
  drop-all (suc i) (x ∷ xs) h = drop-all i xs (omega arith)

AreWithin-cons :
    (size end total : ℕ) (piece : List ℕ) (pieces : List (List ℕ × ℕ))
    → 0 < length piece
    → length piece ≤ size
    → end ≤ total
    → (end < total → pieces ≢ [])
    → (pieces ≢ [] → end < total)
    → AreWithin size total pieces
    → AreWithin size total ((piece, end) ∷ pieces)
unfolding AreWithin
AreWithin-cons size end total piece [] p q r left over rest = elim (Bool-cases (ltb end total)) [
  | inl more ↦ absurd (left (grind arith) refl)
  | inr done ↦ (p, q, grind arith)
]
AreWithin-cons size end total piece (x ∷ pieces) p q r left over rest =
    ((p, q, over (λ e. cc)), rest)

-- One more piece in front.
AreSlices-cons :
    (size offset end : ℕ) (bytes : List ℕ) (pieces : List (List ℕ × ℕ))
    → 0 < size
    → offset < length bytes
    → end ≡ min (offset + size) (length bytes)
    → AreSlices size end bytes pieces
    → AreSlices size offset bytes ((take (end - offset) (drop offset bytes), end) ∷ pieces)
unfolding joined
AreSlices-cons size offset end bytes pieces p q e rest = record {
  whole =
      let k = end - offset in
      let e' : offset + k ≡ end = grind arith in
      ap (λ l. take k (drop offset bytes) ++ l)
        (rest.whole ∙ sym (drop-drop offset k bytes ∙ ap (λ (n : ℕ). drop n bytes) e'))
      ∙ take-drop k (drop offset bytes);
  within =
      let k = end - offset in
      let len = length-take-drop offset k bytes (grind arith) in
      AreWithin-cons size end (length bytes) (take k (drop offset bytes)) pieces
        (grind (arith, len)) (grind (arith, len)) (grind arith) rest.some_left rest.none_over
        rest.within;
  some_left = λ h h'. cc;
  none_over = λ h. q;
}

slices-AreSlices :
    (fuel size offset : ℕ) (bytes : List ℕ)
    → 0 < size
    → offset ≤ length bytes
    → length bytes - offset < fuel
    → (pieces : List (List ℕ × ℕ)) × (slices fuel size offset bytes ≡ some pieces)
      × AreSlices size offset bytes pieces
unfolding slices
slices-AreSlices zero size offset bytes p q h = absurd (omega arith)
slices-AreSlices (suc fuel) size offset bytes p q h =
    let end = min (offset + size) (length bytes) in
    elim (Bool-cases (ltb offset (length bytes))) [
      | inl more ↦
          let (pieces, e, rest) =
            slices-AreSlices fuel size end bytes p (grind arith) (grind arith) in
          (
            (take (end - offset) (drop offset bytes), end) ∷ pieces,
            rw (more, e) refl,
            AreSlices-cons size offset end bytes pieces p (grind arith) refl rest,
          )
      | inr done ↦ (
        [],
        rw done refl,
        record {
          whole = unfold joined in sym (drop-all offset bytes (grind arith));
          within = unfold AreWithin in tt;
          some_left = λ left. absurd (grind arith);
          none_over = λ some. absurd (some refl);
        },
      )
    ]

-- With slices of at least one byte, a body is cut into slices that are the body when joined, none
-- empty and none longer than asked for, of which exactly the last ends where the body does; there is
-- one unless the body is empty.
pub cut-AreSlices :
    (size : ℕ) (bytes : List ℕ)
    → 0 < size
    → (pieces : List (List ℕ × ℕ)) × (cut size bytes ≡ some pieces) × AreSlices size 0 bytes pieces
unfolding cut
cut-AreSlices size bytes p =
    slices-AreSlices (length bytes + 1) size 0 bytes p (omega arith) (omega arith)
