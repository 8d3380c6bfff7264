-- ===== src/Domain.antt =====
-- internal/domain: the data types that strategy, risk and broker share. Symbols and client order ids
-- are compared only, so they are numbers, and 0 stands for the empty string. An instant is the number
-- of nanoseconds since Go's zero time, so 0 is the instant at which `IsZero` holds.
use crypto_swing_bot.Prelude.{ℕ, Bool, true, false, ◌&&◌, not, ltb, ◌==◌, if◌then◌else◌}
use crypto_swing_bot.Prelude.Dict.{Dict}
use crypto_swing_bot.Float.{Float, Decimal, Convert}

abbrev pub Symbol : Type 0
Symbol = ℕ

-- An instant, or a duration, in nanoseconds.
abbrev pub Time : Type 0
Time = ℕ

abbrev pub hour : Time
hour = 3_600_000_000_000

abbrev pub is_zero : Time → Bool
is_zero t = t == 0

pub record Candle (F : Type 0) : Type 0 where
  pub open_time : Time
  pub open_price : F
  pub high : F
  pub low : F
  pub close : F
  pub volume : F
  pub quote_volume : F

pub data Side : Type 0 where
  buy sell : Side

pub data SignalKind : Type 0 where
  enter exit stop_update : SignalKind

-- Without the `Reason` and `Metrics` that a strategy attaches for the reader of a log.
pub record Signal (F : Type 0) : Type 0 where
  pub as_of : Time
  pub symbol : Symbol
  pub kind : SignalKind
  pub score : F
  pub ref_price : F
  pub stop_price : F

pub record Market (D : Type 0) : Type 0 where
  pub symbol : Symbol
  pub base : Symbol
  pub quote : Symbol
  pub active : Bool
  pub tick_size : D
  pub step_size : D
  pub min_notional : D
  pub listed_at : Time
  pub delisted_at : Time

unfoldable pub is_listed_at : {D : Type 0} → Market D → Time → Bool
is_listed_at m t =
    if not (is_zero m.listed_at) && ltb t m.listed_at
    then false
    else if not (is_zero m.delisted_at) && not (ltb t m.delisted_at)
    then false
    else true

-- The `Type` of an order is a string, and the broker tells two of them from all others.
pub data OrderType : Type 0 where
  market stop_market other : OrderType

pub record OrderRequest (D : Type 0) : Type 0 where
  pub client_order_id : ℕ
  pub symbol : Symbol
  pub side : Side
  pub order_type : OrderType
  pub qty : D
  pub price : D

pub data Status : Type 0 where
  pending accepted filled canceled : Status

-- `ID` is the number that the broker prints as `paper-%06d`.
pub record Order (D : Type 0) : Type 0 where
  pub id : ℕ
  pub client_order_id : ℕ
  pub symbol : Symbol
  pub side : Side
  pub order_type : OrderType
  pub qty : D
  pub price : D
  pub filled_qty : D
  pub avg_price : D
  pub fee : D
  pub status : Status
  pub created_at : Time

pub record Position (F D : Type 0) : Type 0 where
  pub symbol : Symbol
  pub qty : D
  pub entry_price : F
  pub entry_time : Time
  pub stop_price : F
  pub high_water : F
  pub strategy : ℕ

pub record Portfolio (F D : Type 0) : Type 0 where
  pub cash : F
  pub positions : Dict (Position F D)
  pub equity : F

unfoldable pub is_filled : {D : Type 0} ⦃d : Decimal D⦄ → Order D → Bool
is_filled ⦃d⦄ o = d.greater_than_or_equal o.filled_qty o.qty && d.is_positive o.qty

module _ {F D : Type 0} ⦃f : Float F⦄ ⦃c : Convert F D⦄ where
  open f use {lit, sub, mul, div, eq}
  open c use {to_float}

  unfoldable pub exposure : Portfolio F D → F
  exposure p = if eq p.equity (lit 0 0) then lit 0 0 else div (sub p.equity p.cash) p.equity

  unfoldable pub unrealized_pnl : Position F D → F → F
  unrealized_pnl p last_price = mul (to_float p.qty) (sub last_price p.entry_price)
