-- ===== src/Core/Float.antt =====
-- 64-bit floats, as far as the backoff uses them: operations with the documented behaviour of IEEE
-- arithmetic and of Rust's casts, as a parameter.
pub mod Fixed
use rakka_inference.Base.{ℕ, ◌<◌, ◌^◌, ◌≡◌, ◌≤◌}

pub record Float : Type 1 where
  pub F : Type 0
  pub of_ℕ : ℕ → F
  pub half : F
  pub zero_float : F
  pub add : F → F → F
  pub mul : F → F → F
  pub div : F → F → F
  -- `x.powi(n as i32)`
  pub powi : F → ℕ → F
  pub min_float : F → F → F
  pub max_float : F → F → F
  -- `x as u64` saturates, and is 0 where `x` is no number.
  pub to_u64 : F → ℕ
  pub IsAtMost : F → F → Type 0
  pub IsUnit : F → Type 0
  -- `min` passes over an operand that is no number; a converted integer is a number.
  pub min_le : (x : F) (n : ℕ) → IsAtMost (min_float x (of_ℕ n)) (of_ℕ n)
  pub to_u64_mono : (x y : F) → IsAtMost x y → to_u64 x ≤ to_u64 y
  -- Integers below 2 ^ 53 are represented exactly.
  pub to_u64_of_ℕ : (n : ℕ) → n < 2 ^ 53 → to_u64 (of_ℕ n) ≡ n
  pub to_u64_max : (x : F) → to_u64 (max_float x zero_float) ≡ to_u64 x
  pub div_unit : (k : ℕ) → k < 10_000 → IsUnit (div (of_ℕ k) (of_ℕ 10_000))
  -- Scaling by a factor between 0 and 1, and the mean with such a multiple, do not pass the number.
  pub scale_le : (x r : F) → IsUnit r → to_u64 (mul x r) ≤ to_u64 x
  pub mean_le : (x r : F) → IsUnit r → to_u64 (add (mul x half) (mul (mul x r) half)) ≤ to_u64 x
