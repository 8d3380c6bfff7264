-- ===== src/Backtest/Engine.antt =====
-- internal/backtest/engine.go: the replay. Without the metrics, which are computed from its result, and
-- without the texts of the errors and warnings. The strategy is a parameter, as it is an interface
-- there, and so is the printing of a client order id.

use crypto_swing_bot.Prelude.{
  ℕ, pos, Bool, false, Option, none, some, List, [], ◌∷◌, ◌++◌, if◌then◌else◌, ◌>>=◌,
}
use crypto_swing_bot.Prelude.Dict.{Dict, lookup}
use crypto_swing_bot.Float.{Float, Decimal, Convert}
use crypto_swing_bot.Domain.{
  Symbol, Time, Candle, Signal, SignalKind, enter, exit, stop_update, Market, Portfolio, Position,
  Side, buy, sell, OrderType, market, stop_market, OrderRequest,
}
use crypto_swing_bot.Config.{RiskConfig, BreakerConfig}
use crypto_swing_bot.Risk.Sizer.{Reason, SizeResult}
use crypto_swing_bot.Risk.Gate.{Decision, GateInput, evaluate}
use crypto_swing_bot.Risk.Breaker.{Breaker}
use crypto_swing_bot.Broker.Book.{
  Costs, ClosedTrade, PaperBroker, Mode, NewError, refused, value_or,
}
use crypto_swing_bot.Broker.Orders.{SubmitError, Submitted, placed, refused, submit}
use crypto_swing_bot.Strategy.{Strategy}

pub record EquityPoint (F : Type 0) : Type 0 where
  pub date : Time
  pub equity : F
  pub cash : F
  pub exposure_pct : F

pub record Rejection : Type 0 where
  pub as_of : Time
  pub symbol : Symbol
  pub reason : Option Reason

-- What a warning is about.
pub data SignalError : Type 0 where
  stop_not_positive exit_without_position unexpected_kind : SignalError
  submit_error : SubmitError → SignalError

pub record Warning : Type 0 where
  pub as_of : Time
  pub symbol : Symbol
  pub error : SignalError

-- The last part of a client order id.
pub data OrderKind : Type 0 where
  entry_order exit_order stop_order : OrderKind

pub data RunError : Type 0 where
  candles_empty costs_not_configured not_enough_days clock_went_back evaluate_failed : RunError
  broker_refused : NewError → RunError

-- What a replay comes to; a panic of the decimal package is no error.
pub data Ran (A : Type 0) : Type 0 where
  finished : A → Ran A
  failed : RunError → Ran A
  panic : Ran A

abbrev pub and_then : {A B : Type 0} → Ran A → (A → Ran B) → Ran B
and_then (finished a) k = k a
and_then (failed e) k = failed e
and_then panic k = panic

abbrev pub or_panic : {A : Type 0} → Option A → Ran A
or_panic none = panic
or_panic (some a) = finished a

abbrev pub or_failed : {A : Type 0} → RunError → Option A → Ran A
or_failed e none = failed e
or_failed e (some a) = finished a

-- `Config`; the breaker is given with its settings.
pub record BacktestConfig (F D : Type 0) : Type 0 where
  pub strategy : Strategy F D
  pub candles : Dict (List (Candle F))
  pub universe : List Symbol
  pub markets : Dict (Market D)
  pub initial_cash : F
  pub costs : Costs F
  pub risk_gate : Option (Signal F → GateInput F D → Option (Decision F D))
  pub breaker : Option (BreakerConfig F × Breaker F)
  pub mode : Option Mode
  pub client_order_id : Time → Symbol → OrderKind → ℕ

-- What the loop over the days carries.
pub record Replay (F D : Type 0) : Type 0 where
  pub broker : PaperBroker F D
  pub breaker : Option (BreakerConfig F × Breaker F)
  pub last_exit_at : Dict Time
  pub trades_seen : ℕ
  pub equity : List (EquityPoint F)
  pub rejections : List Rejection
  pub warnings : List Warning

pub record Result (F D : Type 0) : Type 0 where
  pub strategy : ℕ
  pub costs : Costs F
  pub equity : List (EquityPoint F)
  pub trades : List (ClosedTrade F D)
  pub rejections : List Rejection
  pub warnings : List Warning

module _ {F : Type 0} ⦃f : Float F⦄ where
  open f use {lit}

  -- The settings that are not given.
  abbrev pub no_risk_config : RiskConfig F
  no_risk_config = record {
    risk_per_trade = lit 0 0;
    max_positions = pos 0;
    max_exposure = lit 0 0;
    max_position_pct = lit 0 0;
    cooldown_hours = pos 0;
  }

module _ {F D : Type 0} ⦃f : Float F⦄ ⦃d : Decimal D⦄ ⦃c : Convert F D⦄ where
  open f use {lit, le}
  open d use {d_zero}
  open c use {new_from_float}

  abbrev pub gate_of :
      Option (Signal F → GateInput F D → Option (Decision F D))
      → Signal F
      → GateInput F D
      → Option (Decision F D)
  gate_of none = evaluate no_risk_config no_risk_config
  gate_of (some gate) = gate

module _ {D : Type 0} ⦃d : Decimal D⦄ where
  open d use {d_zero}

  -- The market of a symbol that the map does not list.
  abbrev pub no_market : Market D
  no_market = record {
    symbol = 0;
    base = 0;
    quote = 0;
    active = false;
    tick_size = d_zero;
    step_size = d_zero;
    min_notional = d_zero;
    listed_at = 0;
    delisted_at = 0;
  }

  abbrev pub request : ℕ → Symbol → Side → OrderType → D → D → OrderRequest D
  request id sym side type qty price = record {
    client_order_id = id;
    symbol = sym;
    side = side;
    order_type = type;
    qty = qty;
    price = price;
  }

module _ {F D : Type 0} where
  abbrev pub error_of : PaperBroker F D × Submitted D → PaperBroker F D × Option SignalError
  error_of (b, placed o) = (b, none)
  error_of (b, refused e) = (b, some (submit_error e))

module _ {F D : Type 0} ⦃f : Float F⦄ ⦃d : Decimal D⦄ ⦃c : Convert F D⦄ where
  open f use {lit, le}
  open d use {d_zero}
  open c use {new_from_float}

  abbrev pub submit_stop :
      ℕ → Signal F → PaperBroker F D → Option (PaperBroker F D × Option SignalError)
  submit_stop id s b = do
    price ← new_from_float s.stop_price
    some (error_of (submit b (request id s.symbol sell stop_market d_zero price)))

  abbrev pub submit_exit :
      ℕ → Signal F → Option (Position F D) → PaperBroker F D → PaperBroker F D × Option SignalError
  submit_exit id s none b = (b, some exit_without_position)
  submit_exit id s (some p) b = error_of (submit b (request id s.symbol sell market p.qty d_zero))

  -- `applyExitOrStop`, for a signal of this kind; `none` is a panic.
  unfoldable pub apply_exit_or_stop :
      SignalKind
      → BacktestConfig F D
      → Signal F
      → Portfolio F D
      → PaperBroker F D
      → Option (PaperBroker F D × Option SignalError)
  apply_exit_or_stop stop_update cfg s p b =
      if le s.stop_price (lit 0 0)
      then some (b, some stop_not_positive)
      else submit_stop (cfg.client_order_id s.as_of s.symbol stop_order) s b
  apply_exit_or_stop exit cfg s p b = some (
      submit_exit (cfg.client_order_id s.as_of s.symbol exit_order) s (lookup s.symbol p.positions)
        b)
  apply_exit_or_stop enter cfg s p b = some (b, some unexpected_kind)

  -- The stop behind the entry, unless that was refused.
  abbrev pub protect :
      ℕ
      → Signal F
      → PaperBroker F D × Option SignalError
      → Option (PaperBroker F D × Option SignalError)
  protect id s (b, some e) = some (b, some e)
  protect id s (b, none) = submit_stop id s b

  unfoldable pub submit_entry :
      BacktestConfig F D
      → Signal F
      → D
      → PaperBroker F D
      → Option (PaperBroker F D × Option SignalError)
  submit_entry cfg s qty b =
      let entry_id = cfg.client_order_id s.as_of s.symbol entry_order in
      let stop_id = cfg.client_order_id s.as_of s.symbol stop_order in
      if le s.stop_price (lit 0 0)
      then some (b, some stop_not_positive)
      else protect stop_id s (error_of (submit b (request entry_id s.symbol buy market qty d_zero)))

  abbrev pub with_warning :
      Time → Symbol → Replay F D → PaperBroker F D × Option SignalError → Replay F D
  with_warning t sym r (b, none) = record r { broker = b }
  with_warning t sym r (b, some e) = record r {
    broker = b;
    warnings = r.warnings ++ (record { as_of = t; symbol = sym; error = e } ∷ []);
  }

  -- The loop over the stops and exits of a day.
  unfoldable pub apply_all :
      BacktestConfig F D → Time → Portfolio F D → List (Signal F) → Replay F D → Option (Replay F D)
  apply_all cfg t p [] r = some r
  apply_all cfg t p (s ∷ rest) r = do
    applied ← apply_exit_or_stop s.kind cfg s p r.broker
    apply_all cfg t p rest (with_warning t s.symbol r applied)

  abbrev pub qty_of : Option (SizeResult F D) → D
  qty_of none = d_zero
  qty_of (some size) = size.qty

  -- What the loop does with the decision on one entry.
  abbrev pub decided :
      BacktestConfig F D → Time → Signal F → Replay F D → Decision F D → Option (Replay F D)
  decided cfg t s r decision =
      if decision.approved
      then (do
        submitted ← submit_entry cfg s (qty_of decision.size) r.broker
        some (with_warning t s.symbol r submitted))
      else some (record r {
        rejections =
            r.rejections
            ++ (record { as_of = t; symbol = s.symbol; reason = decision.reason } ∷ []);
      })

  abbrev pub gate_input :
      BacktestConfig F D → Time → Portfolio F D → Bool → Signal F → Replay F D → GateInput F D
  gate_input cfg t p breaker_open s r = record {
    portfolio = p;
    market = value_or no_market (lookup s.symbol cfg.markets);
    now = t;
    last_exit_at = value_or 0 (lookup s.symbol r.last_exit_at);
    breaker_open = breaker_open;
  }

  -- The loop over the entries of a day.
  unfoldable pub enter_all :
      BacktestConfig F D
      → Time
      → Portfolio F D
      → Bool
      → List (Signal F)
      → Replay F D
      → Option (Replay F D)
  enter_all cfg t p breaker_open [] r = some r
  enter_all cfg t p breaker_open (s ∷ rest) r = do
    decision ← gate_of cfg.risk_gate s (gate_input cfg t p breaker_open s r)
    r' ← decided cfg t s r decision
    enter_all cfg t p breaker_open rest r'
