-- ===== src/Indicator/Oscillator.antt =====
-- rsi.go and zscore.go.
use crypto_swing_bot.Prelude.{
  ℕ, suc, ◌+◌, ℤ, pos, List, [], ◌∷◌, ◌++◌, if◌then◌else◌, ltb, length, take, drop, map,
}
use crypto_swing_bot.Float.{Float}
use crypto_swing_bot.Indicator.Slice.{nan_slice, sum_from}
use crypto_swing_bot.Indicator.Average.{wilder, square_sum}

module _ {F : Type 0} ⦃f : Float F⦄ where
  open f use {lit, of_int, nan, add, sub, mul, div, neg, sqrt, lt, eq}

  unfoldable pub gain : F → F
  gain delta = if lt (lit 0 0) delta then delta else lit 0 0

  unfoldable pub loss : F → F
  loss delta = if lt delta (lit 0 0) then neg delta else lit 0 0

  unfoldable pub rsi_from_avg : F → F → F
  rsi_from_avg avg_gain avg_loss =
      let rs = div avg_gain avg_loss in
      if eq avg_loss (lit 0 0)
      then (if eq avg_gain (lit 0 0) then lit 50 0 else lit 100 0)
      else sub (lit 100 0) (div (lit 100 0) (add (lit 1 0) rs))

  -- The changes v[i] - v[i-1] behind a first value.
  unfoldable pub changes_from : F → List F → List F
  changes_from last [] = []
  changes_from last (x ∷ xs) = sub x last ∷ changes_from x xs

  unfoldable pub changes : List F → List F
  changes [] = []
  changes (x ∷ xs) = changes_from x xs

  -- The loops that add up the gains, and the losses, of the first changes.
  unfoldable pub total_gain : F → List F → F
  total_gain acc [] = acc
  total_gain acc (d ∷ ds) = total_gain (add acc (gain d)) ds

  unfoldable pub total_loss : F → List F → F
  total_loss acc [] = acc
  total_loss acc (d ∷ ds) = total_loss (add acc (loss d)) ds

  -- The loop behind the first value, with the two averages.
  unfoldable pub rsi_loop : ℕ → F → F → List F → List F
  rsi_loop n avg_gain avg_loss [] = []
  rsi_loop n avg_gain avg_loss (d ∷ ds) =
      let g = wilder n avg_gain (gain d) in
      let l = wilder n avg_loss (loss d) in rsi_from_avg g l ∷ rsi_loop n g l ds

  unfoldable pub rsi : List F → ℤ → List F
  rsi v (pos (suc n)) =
      let seed = take (suc n) (changes v) in
      let g = div (total_gain (lit 0 0) seed) (of_int (pos (suc n))) in
      let l = div (total_loss (lit 0 0) seed) (of_int (pos (suc n))) in
      if ltb (length v) (suc n + 1)
      then nan_slice (length v)
      else nan_slice (suc n) ++ (rsi_from_avg g l ∷ rsi_loop (suc n) g l (drop (suc n) (changes v)))
  rsi v _ = nan_slice (length v)

  -- `ZScore`, for the values of several symbols at one time.
  unfoldable pub z_score : List F → List F
  z_score xs =
      let n = of_int (pos (length xs)) in
      let mean = div (sum_from (lit 0 0) xs) n in
      let std = sqrt (div (square_sum mean (lit 0 0) xs) n) in
      if eq std (lit 0 0) then nan_slice (length xs) else map (λ x. div (sub x mean) std) xs
