-- ===== src/Feed/Tests.antt =====
-- A list of bars with faults, and the theorems at it.
use crypto_swing_bot.Prelude.{ℕ, ◌+◌, ◌*◌, ◌≡◌, refl, ℤ, pos, Bool, ◌&&◌, List, [], ◌∷◌, length}
use crypto_swing_bot.Float.Whole.{whole_float}
use crypto_swing_bot.Domain.{Candle}
use crypto_swing_bot.Risk.Breaker.{day}
use crypto_swing_bot.Feed.Quality.{
  validate_candles, check_all, check_candle, is_closed, invalid_prices, sort_candles, insert_candle,
  missing_candle, future_candle, invalid_ohlc, critical, warn,
}
use crypto_swing_bot.Feed.Quality.Order.{IsAscending, count}
use crypto_swing_bot.Feed.Quality.Sound.{is_sound, criticals, validate_candles_sound}

abbrev bar : ℕ → ℕ → ℕ → Candle ℤ
bar n low high = record {
  open_time = n * day;
  open_price = pos low;
  high = pos high;
  low = pos low;
  close = pos low;
  volume = pos 1;
  quote_volume = pos low;
}

-- Out of order, with a day missing, a bar whose high is below its low and one that is not over.
abbrev bars : List (Candle ℤ)
bars = bar 4 90 95 ∷ bar 1 80 85 ∷ bar 2 90 70 ∷ bar 5 90 95 ∷ []

issues_of_bars :
    (validate_candles day bars (5 * day)).1
    ≡ record { open_time = 2 * day; kind = invalid_ohlc; severity = critical }
      ∷ record { open_time = 4 * day; kind = missing_candle; severity = warn }
      ∷ record { open_time = 5 * day; kind = future_candle; severity = critical }
      ∷ []
unfolding validate_candles check_all check_candle is_closed invalid_prices sort_candles
    insert_candle
issues_of_bars = refl

validate_candles_sound_example :
    IsAscending (validate_candles day bars (5 * day)).0
    × ((p : Candle ℤ → Bool)
        → count p (validate_candles day bars (5 * day)).0
          ≡ count (λ c. is_sound day (5 * day) c && p c) bars)
    × (criticals (validate_candles day bars (5 * day)).1
          + length (validate_candles day bars (5 * day)).0
        ≡ length bars)
validate_candles_sound_example = validate_candles_sound day bars (5 * day)
