-- ===== src/Local/Run/Bounds.antt =====
-- Reads within bounds.
use rakka_inference.Local.Run.{Run, byte_at, fail, pure, returned, slice, u16_at, u32_at, ◌>>=◌}
use rakka_inference.Base.{
  Bool, List, Result, arith, err, false, get_elem?-length, if◌then◌else◌, leb, length, ltb, ok,
  refl, true, ℕ, ◌+◌, ◌<◌, ◌≡◌, ◌≤◌,
}

pub leb-true : (a b : ℕ) → a ≤ b → leb a b ≡ true
leb-true a b h = ground arith

pub leb→le : (a b : ℕ) → leb a b ≡ true → a ≤ b
leb→le a b e = ground arith

pub not_ltb→le : (a b : ℕ) → ltb a b ≡ false → b ≤ a
not_ltb→le a b e = ground arith

module _ {E : Type 0} where
  -- A run that ends without a panic and within its fuel, with a value of which `P` holds, if any.
  pub data Returns {A : Type 0} (P : A → Type 0) : Run A E → Type 0 where
    failed : (e : E) → Returns P (fail e)
    succeeded : (a : A) → P a → Returns P (pure a)

  pub Returns-bind :
      {A B : Type 0} (P : A → Type 0) (Q : B → Type 0) (m : Run A E) (f : A → Run B E)
      → Returns P m
      → ((a : A) → P a → Returns Q (f a))
      → Returns Q (m >>= f)
  Returns-bind P Q m f (failed e) k = failed e
  Returns-bind P Q m f (succeeded a p) k = k a p

  pub Returns-if :
      {A : Type 0} (P : A → Type 0) (b : Bool) (m n : Run A E)
      → (b ≡ true → Returns P m)
      → (b ≡ false → Returns P n)
      → Returns P (if b then m else n)
  Returns-if P true m n x y = x refl
  Returns-if P false m n x y = y refl

  pub result_Returns : {A : Type 0} (r : Result A E) → Returns {A = A} (λ _. Unit) (returned r)
  result_Returns (ok a) = succeeded a tt
  result_Returns (err e) = failed e

  pub Returns-returned :
      {A : Type 0} (P : A → Type 0) (m : Run A E)
      → Returns P m
      → (r : Result A E) × (m ≡ returned r)
  Returns-returned P m (failed e) = (err e, refl)
  Returns-returned P m (succeeded a p) = (ok a, refl)

  byte_at-Returns :
      (bytes : List ℕ) (i : ℕ) → i < length bytes → Returns {A = ℕ} (λ _. Unit) (byte_at bytes i)
  unfolding byte_at
  byte_at-Returns bytes i h =
      let (b, e) = get_elem?-length bytes i h in rw (e, byte_at) (succeeded b tt)

  pub u16_at-Returns :
      (bytes : List ℕ) (i : ℕ) → i + 1 < length bytes → Returns {A = ℕ} (λ _. Unit) (u16_at bytes i)
  unfolding u16_at
  u16_at-Returns bytes i h =
      Returns-bind _ _ _ _ (byte_at-Returns bytes i (omega arith))
        (λ a _. Returns-bind _ _ _ _ (byte_at-Returns bytes (i + 1) h) (λ b _. succeeded _ tt))

  pub u32_at-Returns :
      (bytes : List ℕ) (i : ℕ) → i + 3 < length bytes → Returns {A = ℕ} (λ _. Unit) (u32_at bytes i)
  unfolding u32_at
  u32_at-Returns bytes i h = Returns-bind _ _ _ _ (byte_at-Returns bytes i (omega arith)) (λ a _.
      Returns-bind _ _ _ _ (byte_at-Returns bytes (i + 1) (omega arith)) (λ b _.
        Returns-bind _ _ _ _ (byte_at-Returns bytes (i + 2) (omega arith))
          (λ c _. Returns-bind _ _ _ _ (byte_at-Returns bytes (i + 3) h) (λ d _. succeeded _ tt))))

  pub slice-Returns :
      {A : Type 0} (bytes : List A) (a b : ℕ)
      → a ≤ b
      → b ≤ length bytes
      → Returns {A = List A} (λ _. Unit) (slice bytes a b)
  unfolding slice
  slice-Returns bytes a b h k =
      rw (leb-true a b h, slice) (rw (leb-true b (length bytes) k) (succeeded _ tt))
