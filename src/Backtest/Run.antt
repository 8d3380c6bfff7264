-- ===== src/Backtest/Run.antt =====
-- internal/backtest/engine.go: Run, the loop over the days.
pub mod Clock
pub mod Days
use crypto_swing_bot.Prelude.{
  ℕ, zero, suc, ◌+◌, ℤ, pos, negsuc, Bool, true, false, Option, none, some, List, [], ◌∷◌, ◌++◌,
  if◌then◌else◌, ltb, leb, length, take, drop, keep, not, pos_part,
}
use crypto_swing_bot.Prelude.Dict.{Dict, lookup, insert}
use crypto_swing_bot.Float.{Float, Decimal, Convert}
use crypto_swing_bot.Domain.{
  Time, Signal, SignalKind, enter, exit, stop_update, Portfolio, exposure,
}
use crypto_swing_bot.Config.{BreakerConfig}
use crypto_swing_bot.Risk.Breaker.{Breaker, TradeResult, record_trade, check}
use crypto_swing_bot.Broker.Book.{
  costs_valid, ClosedTrade, PaperBroker, Mode, backtest, Created, created, refused,
  new_paper_broker,
}
use crypto_swing_bot.Broker.Day.{Advanced, settled, non_increasing, panicked, advance}
use crypto_swing_bot.Broker.View.{portfolio, closed_trades_since}
use crypto_swing_bot.Strategy.{Input}
use crypto_swing_bot.Backtest.Calendar.{
  build_calendar, build_date_index, build_series_and_universe, Selected,
}
use crypto_swing_bot.Backtest.Engine.{
  Ran, finished, failed, panic, and_then, or_panic, or_failed, RunError, candles_empty,
  costs_not_configured, not_enough_days, clock_went_back, evaluate_failed, broker_refused,
  BacktestConfig, Replay, Result, EquityPoint, apply_all, enter_all,
}

abbrev pub is_entry : SignalKind → Bool
is_entry enter = true
is_entry _ = false

abbrev pub is_empty {ℓ} : {A : Type ℓ} → List A → Bool
is_empty [] = true
is_empty (x ∷ xs) = false

abbrev pub first_day : List Time → Time
first_day [] = 0
first_day (t ∷ ts) = t

abbrev pub mode_of : Option Mode → Mode
mode_of none = backtest
mode_of (some m) = m

module _ {F D : Type 0} where
  abbrev pub advanced : Advanced F D → Ran (PaperBroker F D)
  advanced (settled b) = finished b
  advanced non_increasing = failed clock_went_back
  advanced panicked = panic

  abbrev pub created_broker : Created F D → Ran (PaperBroker F D)
  created_broker (created b) = finished b
  created_broker (refused e) = failed (broker_refused e)

  abbrev pub input_of : Time → Selected F → Portfolio F D → Input F D
  input_of t selected p = record {
    as_of = t;
    series = selected.series;
    universe = selected.universe;
    portfolio = p;
  }

  abbrev pub record_with :
      Option (BreakerConfig F × Breaker F) → ClosedTrade F D → Option (BreakerConfig F × Breaker F)
  record_with none tr = none
  record_with (some (cfg, b)) tr =
      some (cfg, record_trade b (record { closed_at = tr.exit_time; pnl = tr.pnl_quote }))

  -- The loop over the trades that were closed today.
  unfoldable pub record_trades : List (ClosedTrade F D) → Replay F D → Replay F D
  record_trades [] r = r
  record_trades (tr ∷ trs) r = record_trades trs (record r {
    last_exit_at = insert tr.symbol tr.exit_time r.last_exit_at;
    breaker = record_with r.breaker tr;
  })

module _ {F : Type 0} ⦃f : Float F⦄ where
  abbrev pub check_with :
      Option (BreakerConfig F × Breaker F) → F → Time → Option (BreakerConfig F × Breaker F)
  check_with none equity t = none
  check_with (some (cfg, b)) equity t = some (cfg, check cfg b equity t)

module _ {F : Type 0} where
  abbrev pub open_of : Option (BreakerConfig F × Breaker F) → Bool
  open_of none = false
  open_of (some (cfg, b)) = b.state.is_open

module _ {F D : Type 0} ⦃f : Float F⦄ ⦃d : Decimal D⦄ ⦃c : Convert F D⦄ where
  abbrev pub point_of : Time → Portfolio F D → EquityPoint F
  point_of t p = record { date = t; equity = p.equity; cash = p.cash; exposure_pct = exposure p }

  -- A day up to the breaker's check: the equity point, the closed trades and the breaker, for the
  -- broker that was advanced to `t`.
  unfoldable pub observe : Time → PaperBroker F D → Replay F D → Replay F D
  observe t b r =
      let p = portfolio b in
      let new_trades = closed_trades_since b r.trades_seen in
      let r' =
        record_trades new_trades
          (record r { broker = b; equity = r.equity ++ (point_of t p ∷ []) }) in
      record r' {
        trades_seen = r.trades_seen + length new_trades;
        breaker = check_with r'.breaker p.equity t;
      }

  -- The stops and exits, and then the entries.
  unfoldable pub act_on :
      BacktestConfig F D → Time → Portfolio F D → List (Signal F) → Replay F D → Ran (Replay F D)
  act_on cfg t p signals r =
      let exits = keep (λ s. not (is_entry s.kind)) signals in
      let entries = keep (λ s. is_entry s.kind) signals in
      and_then (or_panic (apply_all cfg t p exits r))
        λ r'. or_panic (enter_all cfg t p (open_of r.breaker) entries r')

  -- A day behind the breaker's check; `r` holds the broker as it was advanced.
  unfoldable pub trade_day : BacktestConfig F D → ℕ → Time → Replay F D → Ran (Replay F D)
  trade_day cfg warmup t r =
      let p = portfolio r.broker in
      let selected =
        build_series_and_universe cfg.candles (build_date_index cfg.candles) cfg.universe t
          warmup in
      if is_empty selected.universe
      then finished r
      else and_then (or_failed evaluate_failed (cfg.strategy.evaluate (input_of t selected p)))
          λ signals. act_on cfg t p signals r

  -- The loop over the days that are evaluated.
  unfoldable pub replay_days : BacktestConfig F D → ℕ → List Time → Replay F D → Ran (Replay F D)
  replay_days cfg warmup [] r = finished r
  replay_days cfg warmup (t ∷ ts) r =
      and_then (advanced (advance r.broker t))
        λ b. and_then (trade_day cfg warmup t (observe t b r)) λ r'. replay_days cfg warmup ts r'

  -- The loop over the days of the warmup.
  unfoldable pub prime : List Time → PaperBroker F D → Ran (PaperBroker F D)
  prime [] b = finished b
  prime (t ∷ ts) b = and_then (advanced (advance b t)) λ b'. prime ts b'

  abbrev pub result_of : BacktestConfig F D → Replay F D → Result F D
  result_of cfg r = record {
    strategy = cfg.strategy.name;
    costs = cfg.costs;
    equity = r.equity;
    trades = r.broker.trades;
    rejections = r.rejections;
    warnings = r.warnings;
  }

  abbrev pub first_replay : BacktestConfig F D → PaperBroker F D → Replay F D
  first_replay cfg b = record {
    broker = b;
    breaker = cfg.breaker;
    last_exit_at = [];
    trades_seen = 0;
    equity = [];
    rejections = [];
    warnings = [];
  }

  -- `Run` behind its checks, on the calendar.
  unfoldable pub run_on : BacktestConfig F D → ℕ → List Time → Ran (Result F D)
  run_on cfg warmup calendar =
      and_then
        (created_broker (
          new_paper_broker (mode_of cfg.mode) cfg.candles cfg.initial_cash cfg.costs
            (first_day calendar) cfg.strategy.name))
        λ b0. and_then (prime (take (warmup + 1) calendar) b0) λ b.
          and_then (replay_days cfg warmup (drop (warmup + 1) calendar) (first_replay cfg b))
            λ r. finished (result_of cfg r)

  -- The function `Run`.
  unfoldable pub run : BacktestConfig F D → Ran (Result F D)
  run cfg =
      let calendar = build_calendar cfg.candles in
      let warmup = pos_part cfg.strategy.warmup_bars in
      if is_empty cfg.candles
      then failed candles_empty
      else if not (costs_valid cfg.costs)
      then failed costs_not_configured
      else if leb (length calendar) (warmup + 1)
      then failed not_enough_days
      else run_on cfg warmup calendar
