-- ===== src/Float/Fixed.antt =====
-- A type that meets the interfaces of `float64` and `decimal.Decimal`, on which the tests and the
-- examples run: millionths, with `none` for NaN.
use crypto_swing_bot.Prelude.{
  ℕ, suc, ◌*◌, ◌/◌, ◌^◌, ℤ, pos, negsuc, ◌+ℤ◌, ◌-ℤ◌, ◌*ℤ◌, ltb_ℤ, leb_ℤ, Bool, false, ◌&&◌, Option,
  none, some, is_some, if◌then◌else◌, ◌==◌,
}
use crypto_swing_bot.Float.{Float, Decimal, Convert}

abbrev pub Fixed : Type 0
Fixed = Option ℤ

abbrev pub unit : ℕ
unit = 1_000_000

-- Division towards minus infinity by a positive number.
abbrev pub floor_div : ℤ → ℕ → ℤ
floor_div (pos a) b = pos (a / b)
floor_div (negsuc a) b = negsuc (a / b)

abbrev pub on_two : (ℤ → ℤ → ℤ) → Fixed → Fixed → Fixed
on_two f (some a) (some b) = some (f a b)
on_two f _ _ = none

abbrev pub on_test : (ℤ → ℤ → Bool) → Fixed → Fixed → Bool
on_test f (some a) (some b) = f a b
on_test f _ _ = false

abbrev pub mul_ℤ : ℤ → ℤ → ℤ
mul_ℤ a b = floor_div (a *ℤ b) unit

abbrev pub quotient : ℤ → ℤ → Fixed
quotient a (pos b) = if b == 0 then none else some (floor_div (a *ℤ pos unit) b)
quotient a (negsuc b) = some (floor_div (pos 0 -ℤ a *ℤ pos unit) (suc b))

abbrev pub div_fixed : Fixed → Fixed → Fixed
div_fixed (some a) (some b) = quotient a b
div_fixed _ _ = none

abbrev pub eq_ℤ : ℤ → ℤ → Bool
eq_ℤ a b = leb_ℤ a b && leb_ℤ b a

abbrev pub div_or_zero : Fixed → ℤ
div_or_zero none = pos 0
div_or_zero (some q) = q

instance abbrev pub fixed_float : Float Fixed
fixed_float = record {
  lit = λ m k. some (pos (m * unit / 10 ^ k));
  of_int = λ n. some (n *ℤ pos unit);
  nan = none;
  add = on_two ◌+ℤ◌;
  sub = on_two ◌-ℤ◌;
  mul = on_two mul_ℤ;
  div = div_fixed;
  neg = on_two ◌-ℤ◌ (some (pos 0));
  sqrt = λ x. x;
  lt = on_test ltb_ℤ;
  le = on_test leb_ℤ;
  eq = on_test eq_ℤ;
  is_finite = is_some;
}

-- A decimal is the number of its millionths.
instance abbrev pub fixed_decimal : Decimal ℤ
fixed_decimal = record {
  d_zero = pos 0;
  sign_le_zero = λ d. leb_ℤ d (pos 0);
  is_positive = ltb_ℤ (pos 0);
  greater_than = λ a b. ltb_ℤ b a;
  greater_than_or_equal = λ a b. leb_ℤ b a;
  d_div = λ a b. div_or_zero (quotient a b);
  d_floor = λ a. floor_div a unit *ℤ pos unit;
  d_mul = mul_ℤ;
}

instance abbrev pub fixed_convert : Convert Fixed ℤ
fixed_convert = record { new_from_float = λ x. x; to_float = some }
