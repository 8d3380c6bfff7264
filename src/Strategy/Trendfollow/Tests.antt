-- ===== src/Strategy/Trendfollow/Tests.antt =====
-- A run of the trend-following strategy, and its theorem there.
use crypto_swing_bot.Prelude.{ℕ, ◌+◌, ◌≡◌, refl, map, ℤ, pos, [], ◌∷◌, All}
use crypto_swing_bot.Float.Whole.{whole_float}
use crypto_swing_bot.Domain.{Candle, SignalKind, enter, stop_update}
use crypto_swing_bot.Strategy.{Input}
use crypto_swing_bot.Indicator.Slice.{abs_f, max_f, nan_slice, sum_from}
use crypto_swing_bot.Indicator.Average.{
  sma, sma_loop, atr, true_range, range_loop, range_of, wilder, follow,
}
use crypto_swing_bot.Strategy.Trendfollow.{
  TrendfollowParams, evaluate, manage_all, manage, enter_all, entry_signal, enters, exits,
  trailing_stop, rolling_max_close, max_from, closes_of, warmup_bars, sort_signals, insert_signal,
  signal_less,
}
use crypto_swing_bot.Strategy.Trendfollow.Signals.{IsReasoned, evaluate-reason}

abbrev bar : ℕ → ℕ → Candle ℤ
bar t price = record {
  open_time = t;
  open_price = pos price;
  high = pos (price + 2);
  low = pos price;
  close = pos price;
  volume = pos 1;
  quote_volume = pos price;
}

abbrev params : TrendfollowParams ℤ
params = record {
  sma_long = pos 2;
  sma_exit = pos 2;
  breakout_lookback = pos 2;
  atr_period = pos 1;
  atr_stop_mult = pos 2;
  max_atr_pct = pos 1;
}

-- Symbol 9 is held, with a stop at 50; symbol 4 is not.
abbrev input : Input ℤ ℤ
input = record {
  as_of = 2;
  series = (9, bar 1 100 ∷ bar 2 110 ∷ []) ∷ (4, bar 1 40 ∷ bar 2 60 ∷ []) ∷ [];
  universe = 4 ∷ 9 ∷ [];
  portfolio = record {
    cash = pos 500;
    equity = pos 700;
    positions =
        (
          9,
          record {
            symbol = 9;
            qty = pos 2;
            entry_price = pos 100;
            entry_time = 1;
            stop_price = pos 50;
            high_water = pos 100;
            strategy = 1;
          },
        )
        ∷ [];
  };
}

evaluated :
    map {B = ℕ × SignalKind × ℤ} (λ s. (s.symbol, s.kind, s.stop_price)) (evaluate params input)
    ≡ (4, enter, pos 16) ∷ (9, stop_update, pos 88) ∷ []
unfolding evaluate manage_all manage enter_all entry_signal enters exits trailing_stop
    rolling_max_close max_from closes_of warmup_bars sort_signals insert_signal signal_less sma
    sma_loop atr true_range range_loop range_of wilder follow abs_f max_f nan_slice sum_from
evaluated = refl

evaluate-reason_example : All (IsReasoned params input) (evaluate params input)
evaluate-reason_example = evaluate-reason params input (refl, tt)
