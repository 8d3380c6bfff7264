-- ===== src/Strategy/Trendfollow.antt =====
-- internal/strategy/trendfollow.go: the trend-following strategy. Without the `Reason` and `Metrics`
-- of its signals, texts and numbers for the reader of a log.
pub mod Signals
mod Tests
use crypto_swing_bot.Prelude.{
  ℕ, zero, suc, ◌-◌, ℤ, pos, ltb_ℤ, Bool, true, ◌&&◌, Option, none, some, is_some, List, [], ◌∷◌,
  ◌++◌, map, if◌then◌else◌, ltb, ◌==◌, length, drop,
}
use crypto_swing_bot.Prelude.Dict.{Dict, lookup}
use crypto_swing_bot.Float.{Float}
use crypto_swing_bot.Domain.{
  Symbol, Time, Candle, Signal, SignalKind, enter, exit, stop_update, Position,
}
use crypto_swing_bot.Broker.Book.{value_or}
use crypto_swing_bot.Indicator.Slice.{value_at}
use crypto_swing_bot.Indicator.Average.{sma, atr}
use crypto_swing_bot.Strategy.{Input, Strategy}

pub record TrendfollowParams (F : Type 0) : Type 0 where
  pub sma_long : ℤ
  pub sma_exit : ℤ
  pub breakout_lookback : ℤ
  pub atr_period : ℤ
  pub atr_stop_mult : F
  pub max_atr_pct : F

abbrev pub default_trendfollow_params : {F : Type 0} ⦃f : Float F⦄ → TrendfollowParams F
default_trendfollow_params ⦃f⦄ = record {
  sma_long = pos 200;
  sma_exit = pos 50;
  breakout_lookback = pos 20;
  atr_period = pos 14;
  atr_stop_mult = f.lit 25 1;
  max_atr_pct = f.lit 8 2;
}

-- The string that `Name` returns, the number of it.
abbrev pub trendfollow : ℕ
trendfollow = 1

abbrev pub larger : ℤ → ℤ → ℤ
larger need v = if ltb_ℤ need v then v else need

unfoldable pub warmup_bars : {F : Type 0} → TrendfollowParams F → ℤ
warmup_bars p = larger (larger (larger p.sma_long p.sma_exit) p.breakout_lookback) p.atr_period

abbrev pub last_of {ℓ} : {A : Type ℓ} → List A → Option A
last_of [] = none
last_of (x ∷ []) = some x
last_of (x ∷ y ∷ xs) = last_of (y ∷ xs)

abbrev pub signal_kind_order : SignalKind → ℕ
signal_kind_order stop_update = 0
signal_kind_order enter = 1
signal_kind_order exit = 2

module _ {F : Type 0} where
  unfoldable pub closes_of : List (Candle F) → List F
  closes_of series = map (λ c. c.close) series

  -- The order that the signals are sorted by.
  unfoldable pub signal_less : Signal F → Signal F → Bool
  signal_less a b =
      if a.symbol == b.symbol
      then ltb (signal_kind_order a.kind) (signal_kind_order b.kind)
      else ltb a.symbol b.symbol

  unfoldable pub insert_signal : Signal F → List (Signal F) → List (Signal F)
  insert_signal s [] = s ∷ []
  insert_signal s (t ∷ ts) = if signal_less t s then t ∷ insert_signal s ts else s ∷ t ∷ ts

  -- `sort.SliceStable`: signals of the same symbol and kind keep their order.
  unfoldable pub sort_signals : List (Signal F) → List (Signal F)
  sort_signals [] = []
  sort_signals (s ∷ ss) = insert_signal s (sort_signals ss)

module _ {F : Type 0} ⦃f : Float F⦄ where
  open f use {lit, nan, sub, mul, div, lt, eq, is_finite}

  unfoldable pub max_from : F → List F → F
  max_from m [] = m
  max_from m (c ∷ cs) = max_from (if lt m c then c else m) cs

  abbrev pub max_of : List F → F
  max_of [] = nan
  max_of (c ∷ cs) = max_from c cs

  unfoldable pub rolling_max_close : List F → ℤ → F
  rolling_max_close closes (pos (suc n)) =
      if ltb (length closes) (suc n) then nan else max_of (drop (length closes - suc n) closes)
  rolling_max_close closes _ = nan

  -- The last value of an indicator over a series of this length, `v[n-1]`.
  abbrev pub at_last : List F → List (Candle F) → F
  at_last v series = value_at v (length series - 1)

  abbrev pub last_atr : TrendfollowParams F → List (Candle F) → F
  last_atr p series = at_last (atr series p.atr_period) series

  abbrev pub last_sma : ℤ → List (Candle F) → F
  last_sma n series = at_last (sma (closes_of series) n) series

  -- The stop that trails the highest price, if it is above the old one.
  unfoldable pub trailing_stop : TrendfollowParams F → F → F → F → F → F
  trailing_stop p high_water stop_price last_high atr_now =
      let high_water' = if lt high_water last_high then last_high else high_water in
      let new_stop = sub high_water' (mul p.atr_stop_mult atr_now) in
      if lt stop_price new_stop then new_stop else stop_price

  abbrev pub signal_of : SignalKind → Time → Symbol → F → F → Signal F
  signal_of kind as_of sym ref_price stop_price = record {
    as_of = as_of;
    symbol = sym;
    kind = kind;
    score = lit 0 0;
    ref_price = ref_price;
    stop_price = stop_price;
  }

  -- The close fell below the average of `sma_exit` bars.
  unfoldable pub exits : TrendfollowParams F → List (Candle F) → Candle F → Bool
  exits p series last =
      is_finite (last_sma p.sma_exit series) && lt last.close (last_sma p.sma_exit series)

  -- The conditions for an entry, behind the number of bars.
  unfoldable pub enters : TrendfollowParams F → List (Candle F) → Candle F → Bool
  enters p series last =
      let breakout_high = rolling_max_close (closes_of series) p.breakout_lookback in
      (is_finite (last_sma p.sma_long series) && is_finite (last_atr p series))
      && is_finite breakout_high
      && lt (last_sma p.sma_long series) last.close
      && eq last.close breakout_high
      && lt (div (last_atr p series) last.close) p.max_atr_pct

  -- The signal of an entry, for a series with a last bar.
  unfoldable pub entry_signal :
      TrendfollowParams F → Time → Symbol → List (Candle F) → Option (Candle F) → List (Signal F)
  entry_signal p as_of sym series none = []
  entry_signal p as_of sym series (some last) =
      if ltb_ℤ (pos (length series)) (warmup_bars p)
      then []
      else if enters p series last
      then signal_of enter as_of sym last.close
          (sub last.close (mul p.atr_stop_mult (last_atr p series)))
        ∷ []
      else []

module _ {F D : Type 0} ⦃f : Float F⦄ where
  open f use {lit, is_finite}

  -- The signals for one open position, for a series with a last bar.
  unfoldable pub manage :
      TrendfollowParams F
      → Time
      → Symbol
      → Position F D
      → List (Candle F)
      → Option (Candle F)
      → List (Signal F)
  manage p as_of sym held series none = []
  manage p as_of sym held series (some last) =
      let stop = trailing_stop p held.high_water held.stop_price last.high (last_atr p series) in
      if is_finite (last_atr p series)
      then signal_of stop_update as_of sym last.close stop
        ∷ (if exits p series last then signal_of exit as_of sym last.close (lit 0 0) ∷ [] else [])
      else []

  abbrev pub series_of : Input F D → Symbol → List (Candle F)
  series_of i sym = value_or [] (lookup sym i.series)

  -- One turn of the loop over the positions, which skips those of other strategies.
  abbrev pub manage_own : TrendfollowParams F → Input F D → Symbol → Position F D → List (Signal F)
  manage_own p i sym held =
      if held.strategy == trendfollow
      then manage p i.as_of sym held (series_of i sym) (last_of (series_of i sym))
      else []

  -- The loop over the positions, in some order.
  unfoldable pub manage_all :
      TrendfollowParams F → Input F D → Dict (Position F D) → List (Signal F)
  manage_all p i [] = []
  manage_all p i ((sym, held) ∷ rest) = manage_own p i sym held ++ manage_all p i rest

  abbrev pub enter_unheld : TrendfollowParams F → Input F D → Symbol → List (Signal F)
  enter_unheld p i sym =
      if is_some (lookup sym i.portfolio.positions)
      then []
      else entry_signal p i.as_of sym (series_of i sym) (last_of (series_of i sym))

  -- The loop over the universe.
  unfoldable pub enter_all : TrendfollowParams F → Input F D → List Symbol → List (Signal F)
  enter_all p i [] = []
  enter_all p i (sym ∷ rest) = enter_unheld p i sym ++ enter_all p i rest

  -- The method `Evaluate`, which never returns an error.
  unfoldable pub evaluate : TrendfollowParams F → Input F D → List (Signal F)
  evaluate p i = sort_signals (manage_all p i i.portfolio.positions ++ enter_all p i i.universe)

  abbrev pub new_trendfollow : TrendfollowParams F → Strategy F D
  new_trendfollow p = record {
    name = trendfollow;
    warmup_bars = warmup_bars p;
    evaluate = λ i. some (evaluate p i);
  }
