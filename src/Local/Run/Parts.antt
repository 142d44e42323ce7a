-- ===== src/Local/Run/Parts.antt =====
-- Reads of a part, at its offset.
use rakka_inference.Local.Run.{byte_at, pure, slice, u32_at}
use rakka_inference.Base.{
  List, [], ap, arith, drop-append, get_elem?, get_elem?-append, leb, length, length-append, refl,
  some, take-append, true, ℕ, ◌%◌, ◌*◌, ◌++◌, ◌+◌, ◌-◌, ◌/◌, ◌<◌, ◌^◌, ◌∙◌, ◌∷◌, ◌≡◌,
}
use rakka_inference.Local.Run.Bounds.{leb-true}

abbrev pub u32_bytes : ℕ → List ℕ
u32_bytes n = n % 256 ∷ n / 256 % 256 ∷ n / 65_536 % 256 ∷ n / 16_777_216 % 256 ∷ []

u32_whole :
    (n : ℕ)
    → n < 2 ^ 32
    → n % 256
        + 256 * (n / 256 % 256)
        + 65_536 * (n / 65_536 % 256)
        + 16_777_216 * (n / 16_777_216 % 256)
      ≡ n
u32_whole n h = omega arith

module _ {E : Type 0} where
  pub slice_part :
      {A : Type 0} (bytes pre mid post : List A) (a b : ℕ)
      → bytes ≡ pre ++ (mid ++ post)
      → a ≡ length pre
      → b ≡ a + length mid
      → slice {E = E} bytes a b ≡ pure mid
  unfolding slice
  slice_part bytes pre mid post a b e ea eb =
      let fits : leb b (length bytes) ≡ true =
        leb-true _ _
          (omega (arith, ap length e, length-append pre (mid ++ post), length-append mid post)) in
      let order : leb a b ≡ true = leb-true _ _ (omega arith) in
      let width : b - a ≡ length mid = omega arith in
      rw (order, slice)
        (rw (fits, width)
          (ap pure (rw (e, ea, drop-append pre (mid ++ post)) (take-append mid post))))

  byte_at_part :
      (bytes pre : List ℕ) (x : ℕ) (mid post : List ℕ) (i j : ℕ)
      → bytes ≡ pre ++ (mid ++ post)
      → i ≡ length pre + j
      → get_elem? (mid ++ post) j ≡ some x
      → byte_at {E = E} bytes i ≡ pure x
  unfolding byte_at
  byte_at_part bytes pre x mid post i j e ei h =
      let there : get_elem? bytes i ≡ some x =
        rw e (get_elem?-append pre (mid ++ post) i j ei ∙ h) in
      rw (there, byte_at) refl

  pub u32_at_part :
      (bytes pre post : List ℕ) (n i : ℕ)
      → bytes ≡ pre ++ (u32_bytes n ++ post)
      → i ≡ length pre
      → n < 2 ^ 32
      → u32_at {E = E} bytes i ≡ pure n
  unfolding u32_at
  u32_at_part bytes pre post n i e ei h =
      let part : (x k j : ℕ)
          → k ≡ length pre + j
          → get_elem? (u32_bytes n ++ post) j ≡ some x
          → byte_at {E = E} bytes k ≡ pure x =
        λ x k j. byte_at_part bytes pre x (u32_bytes n) post k j e in
      rw (part _ i 0 (omega arith) refl, u32_at)
        (rw
          (
            part _ (i + 1) 1 (omega arith) refl,
            part _ (i + 2) 2 (omega arith) refl,
            part _ (i + 3) 3 (omega arith) refl,
          )
          (ap pure (u32_whole n h)))
