-- ===== src/Core/Float/Fixed.antt =====
-- Fixed-point numbers with four decimals: a float that meets the assumptions.
use rakka_inference.Base.{arith, max, suc, zero, ℕ, ◌*◌, ◌+◌, ◌-◌, ◌/◌, ◌<◌, ◌^◌, ◌≡◌, ◌≤◌}
use rakka_inference.Core.Float.{Float}
use Prim.Native.Nat.{min}

abbrev unit : ℕ
unit = 10_000

abbrev power : ℕ → ℕ → ℕ
power x zero = unit
power x (suc n) = x * power x n / unit

pub of-to : (n : ℕ) → n < 2 ^ 53 → min (n * unit / unit) (2 ^ 64 - 1) ≡ n
of-to n h = omega arith

pub to_mono : (x y : ℕ) → x ≤ y → min (x / unit) (2 ^ 64 - 1) ≤ min (y / unit) (2 ^ 64 - 1)
to_mono x y h = omega arith

pub scaled : (x r : ℕ) → r ≤ unit → x * r / unit ≤ x
scaled x r h = omega (arith, product)
  where
    product : x * r ≤ x * unit
    product = grind arith

pub mean : (x r : ℕ) → r ≤ unit → x * 5000 / unit + x * r / unit * 5000 / unit ≤ x
mean x r h = omega (arith, scaled x r h)

abbrev pub fixed : Float
fixed = record {
  F = ℕ;
  of_ℕ = λ n. n * unit;
  half = 5000;
  zero_float = 0;
  add = λ x y. x + y;
  mul = λ x y. x * y / unit;
  div = λ x y. x * unit / y;
  powi = power;
  min_float = min;
  max_float = max;
  to_u64 = λ x. min (x / unit) (2 ^ 64 - 1);
  IsAtMost = λ x y. x ≤ y;
  IsUnit = λ r. r ≤ unit;
  min_le = λ x n. omega arith;
  to_u64_mono = to_mono;
  to_u64_of_ℕ = of-to;
  to_u64_max = λ x. omega arith;
  div_unit = λ k h. omega arith;
  scale_le = λ x r h. to_mono _ _ (scaled x r h);
  mean_le = λ x r h. to_mono _ _ (mean x r h);
}
