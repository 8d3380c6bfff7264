-- ===== src/Broker/Book.antt =====
-- The state of the paper broker: broker.go, Costs; clock.go, BacktestClock; paper.go, the structs,
-- NewPaperBroker and candleAt.
use crypto_swing_bot.Prelude.{
  ℕ, zero, suc, Bool, true, false, ◌||◌, Option, none, some, List, [], ◌∷◌, if◌then◌else◌, ◌>>=◌,
  ◌==◌, get_elem?,
}
use crypto_swing_bot.Prelude.Dict.{Dict, lookup}
use crypto_swing_bot.Float.{Float}
use crypto_swing_bot.Domain.{Symbol, Time, Candle, OrderRequest, Order, Position}

pub record Costs (F : Type 0) : Type 0 where
  pub fee_rate : F
  pub slippage_bps : F

pub data ExitReason : Type 0 where
  signal stop : ExitReason

pub record ClosedTrade (F D : Type 0) : Type 0 where
  pub symbol : Symbol
  pub strategy : ℕ
  pub entry_time : Time
  pub entry_price : F
  pub exit_time : Time
  pub exit_price : F
  pub qty : D
  pub fees : F
  pub pnl_quote : F
  pub pnl_pct : F
  pub exit_reason : ExitReason

pub record OpenPosition (F D : Type 0) : Type 0 where
  pub position : Position F D
  pub entry_fee : F

-- A mode is a string, of which two are accepted.
pub data Mode : Type 0 where
  backtest paper other : Mode

-- `known` holds for each symbol its cursor plus one, the number of bars up to the cursor: the cursor
-- -1 is 0. `now` is the instant of the clock, which only the broker moves.
pub record PaperBroker (F D : Type 0) : Type 0 where
  pub mode : Mode
  pub now : Time
  pub costs : Costs F
  pub strategy_name : ℕ
  pub cash : F
  pub candles : Dict (List (Candle F))
  pub known : Dict ℕ
  pub started : Bool
  pub positions : Dict (OpenPosition F D)
  pub pending_stops : Dict F
  pub pending : List (OrderRequest D)
  pub seen : Dict (Order D)
  pub trades : List (ClosedTrade F D)
  pub seq : ℕ
  pub last_exit_fee : F

abbrev pub is_other : Mode → Bool
is_other other = true
is_other _ = false

pub data NewError : Type 0 where
  bad_mode costs_not_configured bad_cash : NewError

pub data Created (F D : Type 0) : Type 0 where
  created : PaperBroker F D → Created F D
  refused : NewError → Created F D

-- The value of a map at a key, or the zero value of its type.
abbrev pub value_or : {V : Type 0} → V → Option V → V
value_or v none = v
value_or v (some w) = w

-- The bar at the cursor; there is none before the first bar, and none behind the last.
abbrev pub bar_at : {F : Type 0} → List (Candle F) → ℕ → Option (Candle F)
bar_at series zero = none
bar_at series (suc i) = get_elem? series i

-- The bar, if it opens at `t` exactly.
abbrev pub opens_at : {F : Type 0} → Time → Candle F → Option (Candle F)
opens_at t c = if c.open_time == t then some c else none

-- Every cursor before the first bar.
unfoldable pub new_cursors : {F : Type 0} → Dict (List (Candle F)) → Dict ℕ
new_cursors [] = []
new_cursors ((sym, series) ∷ rest) = (sym, 0) ∷ new_cursors rest

module _ {F : Type 0} ⦃f : Float F⦄ where
  open f use {lit, le}

  -- `Costs.Validate` returns no error.
  unfoldable pub costs_valid : Costs F → Bool
  costs_valid c = if le c.fee_rate (lit 0 0) || le c.slippage_bps (lit 0 0) then false else true

module _ {F D : Type 0} where
  unfoldable pub candle_at : PaperBroker F D → Symbol → Time → Option (Candle F)
  candle_at b symbol t = do
    i ← lookup symbol b.known
    c ← bar_at (value_or [] (lookup symbol b.candles)) i
    opens_at t c

module _ {F D : Type 0} ⦃f : Float F⦄ where
  open f use {lit, le}

  -- A broker that has seen nothing.
  abbrev pub fresh : Mode → Dict (List (Candle F)) → F → Costs F → Time → ℕ → PaperBroker F D
  fresh mode candles initial_cash costs now name = record {
    mode = mode;
    now = now;
    costs = costs;
    strategy_name = name;
    cash = initial_cash;
    candles = candles;
    known = new_cursors candles;
    started = false;
    positions = [];
    pending_stops = [];
    pending = [];
    seen = [];
    trades = [];
    seq = 0;
    last_exit_fee = lit 0 0;
  }

  unfoldable pub new_paper_broker :
      Mode → Dict (List (Candle F)) → F → Costs F → Time → ℕ → Created F D
  new_paper_broker mode candles initial_cash costs now name =
      if is_other mode
      then refused bad_mode
      else if costs_valid costs
      then (if le initial_cash (lit 0 0)
          then refused bad_cash
          else created (fresh mode candles initial_cash costs now name))
      else refused costs_not_configured
