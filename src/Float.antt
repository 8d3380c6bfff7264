-- ===== src/Float.antt =====
-- All that the program does with a `float64` (the language's) and with a `decimal.Decimal` (of the
-- package shopspring/decimal, which is not in the repository): interfaces, taken as instance
-- arguments by everything that computes with prices and quantities. No law is part of them: what a
-- theorem needs of the numbers stands among its hypotheses.
pub mod Fixed
pub mod Whole
use crypto_swing_bot.Prelude.{ℕ, ℤ, Bool, Option, if◌then◌else◌}

-- `float64`. A comparison with NaN is false, so `lt`, `le` and `eq` are three tests and none of them
-- is defined by another. `x > y` is `lt y x`, and `x >= y` is `le y x`.
pub record Float (F : Type 0) : Type 0 where
  -- The literal m / 10^k: `0.25` is `lit 25 2`.
  pub lit : ℕ → ℕ → F
  -- The conversion `float64(n)` of an `int`.
  pub of_int : ℤ → F
  pub nan : F
  pub add : F → F → F
  pub sub : F → F → F
  pub mul : F → F → F
  pub div : F → F → F
  pub neg : F → F
  pub sqrt : F → F
  pub lt : F → F → Bool
  pub le : F → F → Bool
  pub eq : F → F → Bool
  -- Neither NaN nor an infinity.
  pub is_finite : F → Bool

-- `decimal.Decimal`.
pub record Decimal (D : Type 0) : Type 0 where
  -- The zero value, `decimal.Decimal{}`.
  pub d_zero : D
  -- `Sign() <= 0`, `IsPositive()`, `GreaterThan` and `GreaterThanOrEqual`.
  pub sign_le_zero : D → Bool
  pub is_positive : D → Bool
  pub greater_than : D → D → Bool
  pub greater_than_or_equal : D → D → Bool
  -- `Div`, called at a divisor that is not zero only, `Floor` and `Mul`.
  pub d_div : D → D → D
  pub d_floor : D → D
  pub d_mul : D → D → D

-- The conversions between the two.
pub record Convert (F D : Type 0) : Type 0 where
  -- `decimal.NewFromFloat`, which panics (`none`) at NaN and at the infinities.
  pub new_from_float : F → Option D
  -- The first result of `Float64`.
  pub to_float : D → F

-- `if x <= 0 { x = fallback }`, as the code treats a setting that is not configured.
abbrev pub positive_or : {F : Type 0} ⦃f : Float F⦄ → F → F → F
positive_or ⦃f⦄ x fallback = if f.le x (f.lit 0 0) then fallback else x
