-- ===== src/Float/Whole.antt =====
-- A number type with exact addition, on which the account of the broker is balanced: whole numbers,
-- as the prices and as the quantities.
use crypto_swing_bot.Prelude.{
  ◌/◌, ◌^◌, ℤ, pos, negsuc, ◌+ℤ◌, ◌-ℤ◌, ◌*ℤ◌, ltb_ℤ, leb_ℤ, true, ◌&&◌, some,
}
use crypto_swing_bot.Float.{Float, Convert}
use crypto_swing_bot.Float.Fixed.{floor_div}

-- The division rounds down, and is 0 where the divisor is not positive.
abbrev pub div_ℤ : ℤ → ℤ → ℤ
div_ℤ a (pos b) = floor_div a b
div_ℤ a (negsuc b) = pos 0

instance abbrev pub whole_float : Float ℤ
whole_float = record {
  lit = λ m k. pos (m / 10 ^ k);
  of_int = λ n. n;
  nan = pos 0;
  add = ◌+ℤ◌;
  sub = ◌-ℤ◌;
  mul = ◌*ℤ◌;
  div = div_ℤ;
  neg = ◌-ℤ◌ (pos 0);
  sqrt = λ x. x;
  lt = ltb_ℤ;
  le = leb_ℤ;
  eq = λ a b. leb_ℤ a b && leb_ℤ b a;
  is_finite = λ x. true;
}

instance abbrev pub whole_convert : Convert ℤ ℤ
whole_convert = record { new_from_float = some; to_float = λ x. x }
