-- ===== src/Backtest/Tests.antt =====
-- Runs of the backtest, and the theorems at these inputs.
use crypto_swing_bot.Prelude.{
  ℕ, ◌+◌, ◌*◌, ◌≡◌, ◌≢◌, refl, ℤ, pos, none, some, List, [], ◌∷◌, get_elem?, All, arith,
}
use crypto_swing_bot.Prelude.Dict.{Dict}
use crypto_swing_bot.Float.Fixed.{fixed_decimal}
use crypto_swing_bot.Float.Whole.{whole_float, whole_convert}
use crypto_swing_bot.Domain.{Time, Candle, Signal, enter}
use crypto_swing_bot.Strategy.{Strategy}
use crypto_swing_bot.Backtest.Windows.{
  days, window_from, windows_loop, build_windows, build_windows-get, window_at,
}
use crypto_swing_bot.Backtest.Calendar.{
  build_calendar, build_date_index, build_series_and_universe, note_all, note_series, sort_times,
  insert_time,
}
use crypto_swing_bot.Backtest.Calendar.Order.{IsIncreasing, build_calendar-IsIncreasing}
use crypto_swing_bot.Backtest.Calendar.Past.{EndsAt, series-EndsAt}
use crypto_swing_bot.Backtest.Engine.{failed, clock_went_back, BacktestConfig}
use crypto_swing_bot.Backtest.Run.{run}
use crypto_swing_bot.Backtest.Run.Days.{run-clock}

-- The instant at which the bar number n opens, in steps of a second.
abbrev second : ℕ → Time
second n = n * 1_000_000_000

abbrev bar : ℕ → ℕ → Candle ℤ
bar n price = record {
  open_time = second n;
  open_price = pos price;
  high = pos price;
  low = pos price;
  close = pos price;
  volume = pos 1;
  quote_volume = pos price;
}

-- The first bar of symbol 3 is older, and the two have a bar in common.
abbrev history : Dict (List (Candle ℤ))
history = (7, bar 2 100 ∷ bar 4 100 ∷ []) ∷ (3, bar 1 50 ∷ bar 2 60 ∷ []) ∷ []

calendar_of_history : build_calendar history ≡ second 1 ∷ second 2 ∷ second 4 ∷ []
unfolding build_calendar note_all note_series sort_times insert_time
calendar_of_history = refl

build_calendar-IsIncreasing_example : IsIncreasing (build_calendar history)
build_calendar-IsIncreasing_example = build_calendar-IsIncreasing history

-- A strategy that asks for every symbol of the universe, and never sees ahead.
abbrev signal_for : Time → ℕ → Signal ℤ
signal_for t sym = record {
  as_of = t;
  symbol = sym;
  kind = enter;
  score = pos 0;
  ref_price = pos 100;
  stop_price = pos 90;
}

abbrev signals_for : Time → List ℕ → List (Signal ℤ)
signals_for t [] = []
signals_for t (sym ∷ syms) = signal_for t sym ∷ signals_for t syms

abbrev greedy : Strategy ℤ ℤ
greedy = record {
  name = 1;
  warmup_bars = pos 0;
  evaluate = λ i. some (signals_for i.as_of i.universe);
}

abbrev config : BacktestConfig ℤ ℤ
config = record {
  strategy = greedy;
  candles = history;
  universe = [];
  markets = [];
  initial_cash = pos 1000;
  costs = record { fee_rate = pos 1; slippage_bps = pos 15 };
  risk_gate = none;
  breaker = none;
  mode = none;
  client_order_id = λ t sym kind. t + sym + 1;
}

run-clock_example : run config ≢ failed clock_went_back
run-clock_example = run-clock config

-- Two windows of 2 days of training and 1 of test, a day apart, in 4 days of data.
second_window :
    get_elem? (build_windows 0 (days 4) (pos 2) (pos 1) (pos 1)) 1 ≡ some (window_from 2 1 (days 1))
unfolding build_windows windows_loop window_from
second_window = refl

build_windows-get_example :
    get_elem? (build_windows 0 (days 4) (pos 2) (pos 1) (pos 1)) 1 ≡ window_at 2 1 1 (days 4) 0 1
build_windows-get_example = build_windows-get 0 (days 4) 1 0 0 1 (omega arith)

-- On the second day both symbols have a bar.
series-EndsAt_example :
    All
      (EndsAt history (second 2) 0)
      ((build_series_and_universe history (build_date_index history) [] (second 2) 0).series)
series-EndsAt_example = series-EndsAt history [] (second 2) 0
