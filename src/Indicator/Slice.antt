-- ===== src/Indicator/Slice.antt =====
-- Slices of numbers: indicator.go, nanSlice; atr.go, absF and maxF.
use crypto_swing_bot.Prelude.{
  ℕ, zero, suc, ap, ◌<◌, ◌≡◌, refl, Option, none, some, List, [], ◌∷◌, ◌++◌, arith, length,
  get_elem?, take, replicate, if◌then◌else◌,
}
use crypto_swing_bot.Float.{Float}

module _ {F : Type 0} ⦃f : Float F⦄ where
  open f use {lit, nan, neg, lt, add}

  unfoldable pub nan_slice : ℕ → List F
  nan_slice n = replicate n nan

  -- The value that `v[i]` reads; the loops read inside the slice only.
  abbrev pub or_nan : Option F → F
  or_nan none = nan
  or_nan (some x) = x

  abbrev pub value_at : List F → ℕ → F
  value_at v i = or_nan (get_elem? v i)

  unfoldable pub abs_f : F → F
  abs_f x = if lt x (lit 0 0) then neg x else x

  unfoldable pub max_f : F → F → F
  max_f a b = if lt b a then a else b

  -- The loop `for _, x := range v { sum += x }`.
  unfoldable pub sum_from : F → List F → F
  sum_from acc [] = acc
  sum_from acc (x ∷ xs) = sum_from (add acc x) xs

  pub value_at-append : (v w : List F) (i : ℕ) → i < length v → value_at (v ++ w) i ≡ value_at v i
  value_at-append [] w i h = absurd (omega arith)
  value_at-append (x ∷ v) w zero h = refl
  value_at-append (x ∷ v) w (suc i) h = value_at-append v w i (omega arith)

module _ {A : Type 0} where
  pub take-append : (n : ℕ) (v w : List A) → n ≡ length v → take n (v ++ w) ≡ v
  take-append zero [] w h = refl
  take-append zero (x ∷ v) w h = absurd (omega arith)
  take-append (suc n) [] w h = absurd (omega arith)
  take-append (suc n) (x ∷ v) w h = ap (λ l. x ∷ l) (take-append n v w (omega arith))

  pub length-replicate : (n : ℕ) (a : A) → length (replicate n a) ≡ n
  length-replicate zero a = refl
  length-replicate (suc n) a = omega (arith, length-replicate n a)
