-- ===== src/Backtest/Calendar.antt =====
-- internal/backtest/engine.go: buildCalendar, buildDateIndex, buildSeriesAndUniverse and truncateSeries.
-- The candles are looked up by their millisecond.
pub mod Order
pub mod Past
use crypto_swing_bot.Prelude.{
  ℕ, zero, suc, ◌+◌, ◌/◌, Bool, true, false, ◌||◌, Option, none, some, List, [], ◌∷◌, ◌++◌,
  if◌then◌else◌, ltb, take, ◌>>=◌,
}
use crypto_swing_bot.Prelude.Dict.{Dict, lookup, insert, keys}
use crypto_swing_bot.Domain.{Symbol, Time, Candle}
use crypto_swing_bot.Broker.Book.{value_or}
use crypto_swing_bot.Broker.Day.{sort_symbols}

abbrev pub unix_milli : Time → ℕ
unix_milli t = t / 1_000_000

unfoldable pub insert_time : Time → List Time → List Time
insert_time t [] = t ∷ []
insert_time t (u ∷ us) = if ltb u t then u ∷ insert_time t us else t ∷ u ∷ us

unfoldable pub sort_times : List Time → List Time
sort_times [] = []
sort_times (t ∷ ts) = insert_time t (sort_times ts)

abbrev pub times_of : Dict Time → List Time
times_of [] = []
times_of ((k, t) ∷ seen) = t ∷ times_of seen

pub record Selected (F : Type 0) : Type 0 where
  pub series : Dict (List (Candle F))
  pub universe : List Symbol

module _ {F : Type 0} where
  -- The two loops that note the instants, by their millisecond.
  unfoldable pub note_series : List (Candle F) → Dict Time → Dict Time
  note_series [] seen = seen
  note_series (c ∷ cs) seen = note_series cs (insert (unix_milli c.open_time) c.open_time seen)

  unfoldable pub note_all : Dict (List (Candle F)) → Dict Time → Dict Time
  note_all [] seen = seen
  note_all ((sym, series) ∷ rest) seen = note_all rest (note_series series seen)

  unfoldable pub build_calendar : Dict (List (Candle F)) → List Time
  build_calendar candles = sort_times (times_of (note_all candles []))

  -- The loop over one series, from this index on.
  unfoldable pub index_series : ℕ → List (Candle F) → Dict ℕ → Dict ℕ
  index_series i [] m = m
  index_series i (c ∷ cs) m = index_series (suc i) cs (insert (unix_milli c.open_time) i m)

  unfoldable pub build_date_index : Dict (List (Candle F)) → Dict (Dict ℕ)
  build_date_index [] = []
  build_date_index ((sym, series) ∷ rest) = (sym, index_series 0 series []) ∷ build_date_index rest

  -- `full[: i+1 : i+1]`; the model has no capacity that could be read behind the length.
  unfoldable pub truncate_series : List (Candle F) → ℕ → List (Candle F)
  truncate_series full i = take (i + 1) full

  abbrev pub select : Dict (List (Candle F)) → Symbol → ℕ → Option ℕ → Selected F → Selected F
  select candles sym warmup none s = s
  select candles sym warmup (some i) s = if ltb i warmup then s else record {
    series = insert sym (truncate_series (value_or [] (lookup sym candles)) i) s.series;
    universe = s.universe ++ (sym ∷ []);
  }

  -- The loop over the candidates.
  unfoldable pub select_all :
      Dict (List (Candle F)) → Dict (Dict ℕ) → Time → ℕ → List Symbol → Selected F → Selected F
  select_all candles index t warmup [] s = s
  select_all candles index t warmup (sym ∷ rest) s =
      let i = lookup (unix_milli t) (value_or [] (lookup sym index)) in
      select_all candles index t warmup rest (select candles sym warmup i s)

  abbrev pub candidates : Dict (List (Candle F)) → List Symbol → List Symbol
  candidates candles [] = sort_symbols (keys candles)
  candidates candles (sym ∷ restrict) = sym ∷ restrict

  unfoldable pub build_series_and_universe :
      Dict (List (Candle F)) → Dict (Dict ℕ) → List Symbol → Time → ℕ → Selected F
  build_series_and_universe candles index restrict t warmup =
      select_all candles index t warmup (candidates candles restrict)
        (record { series = []; universe = [] })
