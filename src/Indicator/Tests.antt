-- ===== src/Indicator/Tests.antt =====
-- Runs of the indicators, and the theorem at a short series.
use crypto_swing_bot.Prelude.{ℕ, ◌≡◌, refl, pos, none, List, [], ◌∷◌, ◌++◌}
use crypto_swing_bot.Float.Fixed.{Fixed, fixed_float}
use crypto_swing_bot.Domain.{Candle}
use crypto_swing_bot.Indicator.Slice.{sum_from, nan_slice, abs_f, max_f}
use crypto_swing_bot.Indicator.Average.{
  sma, sma_loop, ema, follow, roc, roc_loop, std_dev, atr, true_range, range_loop, range_of, wilder,
}
use crypto_swing_bot.Indicator.Oscillator.{
  rsi, rsi_from_avg, rsi_loop, changes, changes_from, total_gain, total_loss, gain, loss,
}
use crypto_swing_bot.Indicator.Extends.{Extends}
use crypto_swing_bot.Indicator.Causal.{indicators_causal}

abbrev num : ℕ → Fixed
num n = fixed_float.lit n 0

abbrev series : List Fixed
series = num 10 ∷ num 20 ∷ num 60 ∷ []

sma_series : sma series (pos 2) ≡ none ∷ num 15 ∷ num 40 ∷ []
unfolding sma sma_loop
sma_series = refl

ema_series : ema series (pos 3) ≡ none ∷ none ∷ num 30 ∷ []
unfolding ema follow sum_from nan_slice
ema_series = refl

roc_series : roc series (pos 1) ≡ none ∷ num 1 ∷ num 2 ∷ []
unfolding roc roc_loop nan_slice
roc_series = refl

-- Only gains.
rsi_series : rsi series (pos 2) ≡ none ∷ none ∷ num 100 ∷ []
unfolding rsi rsi_from_avg rsi_loop changes changes_from total_gain total_loss gain loss nan_slice
rsi_series = refl

abbrev bar : ℕ → ℕ → ℕ → Candle Fixed
bar t lo hi = record {
  open_time = t;
  open_price = num lo;
  high = num hi;
  low = num lo;
  close = num hi;
  volume = num 1;
  quote_volume = num 1;
}

atr_bars : atr (bar 1 10 20 ∷ bar 2 50 60 ∷ []) (pos 2) ≡ none ∷ num 25 ∷ []
unfolding atr true_range range_loop range_of wilder follow sum_from nan_slice abs_f max_f
atr_bars = refl

indicators_causal_example :
    Extends (sma (series ++ (num 7 ∷ [])) (pos 2)) (sma series (pos 2))
    × Extends (ema (series ++ (num 7 ∷ [])) (pos 2)) (ema series (pos 2))
    × Extends (roc (series ++ (num 7 ∷ [])) (pos 2)) (roc series (pos 2))
    × Extends (rsi (series ++ (num 7 ∷ [])) (pos 2)) (rsi series (pos 2))
    × Extends (std_dev (series ++ (num 7 ∷ [])) (pos 2)) (std_dev series (pos 2))
    × Extends
        (atr ((bar 1 10 20 ∷ []) ++ (bar 2 50 60 ∷ [])) (pos 2))
        (atr (bar 1 10 20 ∷ []) (pos 2))
indicators_causal_example =
    indicators_causal (pos 2) series (num 7 ∷ []) (bar 1 10 20 ∷ []) (bar 2 50 60 ∷ [])
