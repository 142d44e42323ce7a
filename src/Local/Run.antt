-- ===== src/Local/Run.antt =====
-- Code that reads slices by index: a read out of bounds panics.
pub mod Bounds
pub mod Parts
pub mod Values
use rakka_inference.Base.{
  List, Result, drop, err, get_elem?, if◌then◌else◌, leb, length, none, ok, some, take, ℕ, ◌&&◌,
  ◌*◌, ◌+◌, ◌-◌,
}

-- How a run ends. The last is no outcome in Rust: it tells that the fuel was too little.
pub data Run (A E : Type 0) : Type 0 where
  returned : Result A E → Run A E
  panicked : Run A E
  out_of_fuel : Run A E

abbrev pub pure : {A E : Type 0} → A → Run A E
pure a = returned (ok a)

abbrev pub fail : {A E : Type 0} → E → Run A E
fail e = returned (err e)

infixl 5 ◌>>=◌
abbrev pub ◌>>=◌ : {A B E : Type 0} → Run A E → (A → Run B E) → Run B E
returned (ok a) >>= f = f a
returned (err e) >>= f = returned (err e)
panicked >>= f = panicked
out_of_fuel >>= f = out_of_fuel

module _ {E : Type 0} where
  unfoldable pub byte_at : List ℕ → ℕ → Run ℕ E
  byte_at bytes i = elim (get_elem? bytes i) [ none ↦ panicked | some b ↦ pure b ]

  -- `&bytes[a..b]`
  unfoldable pub slice : {A : Type 0} → List A → ℕ → ℕ → Run (List A) E
  slice bytes a b =
      if leb a b && leb b (length bytes) then pure (take (b - a) (drop a bytes)) else panicked

  -- `u16::from_le_bytes` and `u32::from_le_bytes` at an offset.
  unfoldable pub u16_at : List ℕ → ℕ → Run ℕ E
  u16_at bytes i = byte_at bytes i >>= λ a. byte_at bytes (i + 1) >>= λ b. pure (a + 256 * b)

  unfoldable pub u32_at : List ℕ → ℕ → Run ℕ E
  u32_at bytes i = byte_at bytes i >>= λ a. byte_at bytes (i + 1) >>= λ b.
      byte_at bytes (i + 2) >>= λ c.
      byte_at bytes (i + 3) >>= λ d. pure (a + 256 * b + 65_536 * c + 16_777_216 * d)
