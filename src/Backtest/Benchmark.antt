-- ===== src/Backtest/Benchmark.antt =====
-- internal/backtest/metrics.go: BuyAndHoldCurve and Top10EqualWeightCurve, what the account is held
-- against.
use crypto_swing_bot.Prelude.{
  ℕ, pos, ◌||◌, Option, none, some, List, [], ◌∷◌, if◌then◌else◌, ◌==◌, any, length, take,
}
use crypto_swing_bot.Prelude.Dict.{Dict, lookup, insert}
use crypto_swing_bot.Float.{Float}
use crypto_swing_bot.Domain.{Symbol, Time, Candle}
use crypto_swing_bot.Broker.Book.{Costs, value_or}
use crypto_swing_bot.Backtest.Calendar.{unix_milli}
use crypto_swing_bot.Backtest.Engine.{EquityPoint}
use crypto_swing_bot.Backtest.Run.{is_empty, first_day}

-- What the benchmark holds from the first day on.
pub record Holding (F : Type 0) : Type 0 where
  pub qty : F
  pub cash_remaining : F

pub record Ranked (F : Type 0) : Type 0 where
  pub symbol : Symbol
  pub volume : F

module _ {F : Type 0} where
  -- `byTime`
  unfoldable pub by_time : List (Candle F) → Dict (Candle F) → Dict (Candle F)
  by_time [] m = m
  by_time (c ∷ cs) m = by_time cs (insert (unix_milli c.open_time) c m)

module _ {F : Type 0} ⦃f : Float F⦄ where
  open f use {lit, of_int, add, sub, mul, div, lt, le}

  unfoldable pub buy_at : F → F → Costs F → Holding F
  buy_at open_price initial_cash costs =
      let entry_fill = mul open_price (add (lit 1 0) (div costs.slippage_bps (lit 10_000 0))) in
      let qty = div initial_cash (mul entry_fill (add (lit 1 0) costs.fee_rate)) in
      let cost = mul qty entry_fill in
      let fee = mul cost costs.fee_rate in
      record { qty = qty; cash_remaining = sub (sub initial_cash cost) fee }

  abbrev pub exposed : F → F → F
  exposed equity cash = if lt (lit 0 0) equity then div (sub equity cash) equity else lit 0 0

  abbrev pub held_point : Holding F → Time → F → EquityPoint F
  held_point h t close =
      let equity = add h.cash_remaining (mul h.qty close) in
      record {
        date = t;
        equity = equity;
        cash = h.cash_remaining;
        exposure_pct = exposed equity h.cash_remaining;
      }

  -- The loop over the calendar; a day without a bar is valued at the last one.
  unfoldable pub hold_loop :
      Dict (Candle F) → Holding F → Candle F → List Time → List (EquityPoint F)
  hold_loop bars h last [] = []
  hold_loop bars h last (t ∷ ts) =
      let bar = value_or last (lookup (unix_milli t) bars) in
      held_point h t bar.close ∷ hold_loop bars h bar ts

  abbrev pub hold_from :
      Dict (Candle F) → List Time → F → Costs F → Option (Candle F) → List (EquityPoint F)
  hold_from bars calendar initial_cash costs none = []
  hold_from bars calendar initial_cash costs (some entry) =
      hold_loop bars (buy_at entry.open_price initial_cash costs) entry calendar

  -- `BuyAndHoldCurve`
  unfoldable pub buy_and_hold_curve :
      List (Candle F) → List Time → F → Costs F → List (EquityPoint F)
  buy_and_hold_curve candles calendar initial_cash costs =
      let bars = by_time candles [] in
      if (is_empty candles || is_empty calendar) || le initial_cash (lit 0 0)
      then []
      else hold_from bars calendar initial_cash costs
          (lookup (unix_milli (first_day calendar)) bars)

  unfoldable pub volume_sum : F → List (Candle F) → F
  volume_sum acc [] = acc
  volume_sum acc (c ∷ cs) = volume_sum (add acc c.quote_volume) cs

  -- The loop over the symbols: those with a bar on the first day, by their mean volume.
  unfoldable pub rank_all : ℕ → Dict (List (Candle F)) → List (Ranked F)
  rank_all entry_key [] = []
  rank_all entry_key ((sym, series) ∷ rest) =
      let others = rank_all entry_key rest in
      if any (λ c. unix_milli c.open_time == entry_key) series
      then record {
        symbol = sym;
        volume = div (volume_sum (lit 0 0) series) (of_int (pos (length series)));
      }
        ∷ others
      else others

  -- `sort.Slice`, the largest volume first; symbols of the same volume stay in the order of the map.
  unfoldable pub insert_ranked : Ranked F → List (Ranked F) → List (Ranked F)
  insert_ranked r [] = r ∷ []
  insert_ranked r (q ∷ qs) = if lt r.volume q.volume then q ∷ insert_ranked r qs else r ∷ q ∷ qs

  unfoldable pub sort_ranked : List (Ranked F) → List (Ranked F)
  sort_ranked [] = []
  sort_ranked (r ∷ rs) = insert_ranked r (sort_ranked rs)

  unfoldable pub blank_points : List Time → List (EquityPoint F)
  blank_points [] = []
  blank_points (t ∷ ts) =
      record { date = t; equity = lit 0 0; cash = lit 0 0; exposure_pct = lit 0 0 }
      ∷ blank_points ts

  -- `for i, p := range leg`; a leg is empty or as long as the calendar.
  unfoldable pub add_leg : List (EquityPoint F) → List (EquityPoint F) → List (EquityPoint F)
  add_leg [] leg = []
  add_leg (o ∷ out) [] = o ∷ out
  add_leg (o ∷ out) (p ∷ leg) =
      record o { equity = add o.equity p.equity; cash = add o.cash p.cash } ∷ add_leg out leg

  unfoldable pub add_legs :
      Dict (List (Candle F))
      → List Time
      → F
      → Costs F
      → List (Ranked F)
      → List (EquityPoint F)
      → List (EquityPoint F)
  add_legs candles calendar share costs [] out = out
  add_legs candles calendar share costs (r ∷ rs) out =
      let series = value_or [] (lookup r.symbol candles) in
      add_legs candles calendar share costs rs
        (add_leg out (buy_and_hold_curve series calendar share costs))

  unfoldable pub with_exposure : List (EquityPoint F) → List (EquityPoint F)
  with_exposure [] = []
  with_exposure (o ∷ out) =
      (if lt (lit 0 0) o.equity
        then record o { exposure_pct = div (sub o.equity o.cash) o.equity }
        else o)
      ∷ with_exposure out

  abbrev pub equal_weight :
      Dict (List (Candle F)) → List Time → F → Costs F → List (Ranked F) → List (EquityPoint F)
  equal_weight candles calendar initial_cash costs [] = []
  equal_weight candles calendar initial_cash costs (r ∷ rs) =
      let share = div initial_cash (of_int (pos (length (r ∷ rs)))) in
      with_exposure (add_legs candles calendar share costs (r ∷ rs) (blank_points calendar))

  -- `Top10EqualWeightCurve`
  unfoldable pub top10_equal_weight_curve :
      Dict (List (Candle F)) → List Time → F → Costs F → List (EquityPoint F)
  top10_equal_weight_curve candles calendar initial_cash costs =
      if (is_empty candles || is_empty calendar) || le initial_cash (lit 0 0)
      then []
      else equal_weight candles calendar initial_cash costs
          (take 10 (sort_ranked (rank_all (unix_milli (first_day calendar)) candles)))
