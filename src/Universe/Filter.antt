-- ===== src/Universe/Filter.antt =====
-- internal/universe/filter.go: Filter with its helpers. Without the texts of the
-- exclusions. The printing of a symbol is a parameter.
pub mod Eligible
use crypto_swing_bot.Prelude.{
  ℕ, suc, ◌+◌, ◌-◌, ◌*◌, ◌/◌, ◌%◌, ℤ, Bool, true, false, ◌&&◌, ◌||◌, not, Option, none, some, List,
  [], ◌∷◌, ◌++◌, if◌then◌else◌, ltb, leb, ◌==◌, get_elem?, length, keep, or_default, pos_part,
}
use crypto_swing_bot.Float.{Float, positive_or}
use crypto_swing_bot.Domain.{Symbol, Time, Candle, Market, is_zero, is_listed_at}
use crypto_swing_bot.Risk.Breaker.{day}
use crypto_swing_bot.Broker.Book.{value_or}
use crypto_swing_bot.Backtest.Run.{is_empty}
use crypto_swing_bot.Notify.Approval.{GoString}
use crypto_swing_bot.Feed.Quality.{QualityIssue, validate_candles}
use crypto_swing_bot.Universe.Names.{default_exclude_patterns, is_leveraged, is_stablecoin}

pub data ExclusionReason : Type 0 where
  wrong_quote inactive_at_date unknown_listing_date too_young insufficient_data : ExclusionReason
  low_liquidity leveraged_token stablecoin recent_quality_flag : ExclusionReason

-- `FilterParams`; the quote asset is given.
pub record FilterParams (F : Type 0) : Type 0 where
  pub quote : Symbol
  pub min_median_quote_volume : F
  pub min_listing_age_days : ℤ
  pub warmup_bars : ℤ
  pub exclude_patterns : List GoString
  pub exclude_stablecoins : Bool
  pub liquidity_lookback_days : ℤ
  pub quality_lookback_days : ℤ
  pub timeframe : ℤ

-- `FilterParams` with its defaults filled in.
pub record Rules (F : Type 0) : Type 0 where
  pub quote : Symbol
  pub min_volume : F
  pub min_age : ℕ
  pub need_bars : ℕ
  pub patterns : List GoString
  pub no_stablecoins : Bool
  pub liquidity_days : ℕ
  pub quality_days : ℕ
  pub tf : Time

pub record Candidate (F D : Type 0) : Type 0 where
  pub market : Market D
  pub candles : List (Candle F)

pub record Included (F : Type 0) : Type 0 where
  pub symbol : Symbol
  pub base : Symbol
  pub median_quote_volume : F
  pub candles : List (Candle F)

pub record Excluded : Type 0 where
  pub symbol : Symbol
  pub reason : ExclusionReason

pub record Filtered (F : Type 0) : Type 0 where
  pub included : List (Included F)
  pub excluded : List Excluded

pub data Verdict (F : Type 0) : Type 0 where
  exclude : ExclusionReason → Verdict F
  include : F → Verdict F

abbrev pub patterns_or_default : List GoString → List GoString
patterns_or_default [] = default_exclude_patterns
patterns_or_default (p ∷ ps) = p ∷ ps

module _ {F : Type 0} ⦃f : Float F⦄ where
  open f use {lit, add, div, lt, le, eq}

  -- `withDefaults` and `effectiveWarmupBars`
  unfoldable pub with_defaults : FilterParams F → Rules F
  with_defaults p = record {
    quote = p.quote;
    min_volume = positive_or p.min_median_quote_volume (lit 5_000_000 0);
    min_age = or_default p.min_listing_age_days 180;
    need_bars = if ltb 91 (pos_part p.warmup_bars) then pos_part p.warmup_bars else 91;
    patterns = patterns_or_default p.exclude_patterns;
    no_stablecoins = p.exclude_stablecoins;
    liquidity_days = or_default p.liquidity_lookback_days 30;
    quality_days = or_default p.quality_lookback_days 30;
    tf = or_default p.timeframe day;
  }

  -- `candleLookbackDays` of universe.go: how many days back `Build` reads the bars of a candidate.
  unfoldable pub candle_lookback_days : FilterParams F → ℕ
  candle_lookback_days params =
      let p = with_defaults params in
      (if ltb p.need_bars p.liquidity_days then p.liquidity_days else p.need_bars) + 30

  -- `sort.Float64s`, which puts NaN first.
  abbrev pub float_less : F → F → Bool
  float_less a b = lt a b || (not (eq a a) && eq b b)

  unfoldable pub insert_float : F → List F → List F
  insert_float x [] = x ∷ []
  insert_float x (y ∷ ys) = if float_less y x then y ∷ insert_float x ys else x ∷ y ∷ ys

  unfoldable pub sort_floats : List F → List F
  sort_floats [] = []
  sort_floats (x ∷ xs) = insert_float x (sort_floats xs)

  abbrev pub volumes : List (Candle F) → List F
  volumes [] = []
  volumes (c ∷ cs) = c.quote_volume ∷ volumes cs

  abbrev pub at_index : List F → ℕ → F
  at_index xs i = value_or (lit 0 0) (get_elem? xs i)

  abbrev pub middle : List F → F
  middle vols =
      let n = length vols in
      if n % 2 == 1
      then at_index vols (n / 2)
      else div (add (at_index vols (n / 2 - 1)) (at_index vols (n / 2))) (lit 2 0)

module _ {F : Type 0} where
  -- `candlesInWindow`
  unfoldable pub candles_in_window : List (Candle F) → Time → ℕ → List (Candle F)
  candles_in_window candles as_of days =
      keep (λ c. not (ltb c.open_time (as_of - days * day)) && not (ltb as_of c.open_time)) candles

  abbrev pub first_open : List (Candle F) → Time
  first_open [] = 0
  first_open (c ∷ cs) = c.open_time

  -- `listedAt`, with the first bar where the market has none.
  unfoldable pub listed_since : Time → List (Candle F) → Time
  listed_since listed_at candles = if is_zero listed_at then first_open candles else listed_at

module _ {F : Type 0} ⦃f : Float F⦄ where
  open f use {lit, lt}

  -- `recentQualityIssues`
  unfoldable pub recent_quality_issues : List (Candle F) → Time → ℕ → Time → List QualityIssue
  recent_quality_issues candles as_of days tf =
      let window = candles_in_window candles as_of days in
      if is_empty window then [] else (validate_candles tf window (as_of + tf)).1

  abbrev pub median_of : List (Candle F) → Option F
  median_of [] = none
  median_of (c ∷ cs) = some (middle (sort_floats (volumes (c ∷ cs))))

  -- `medianQuoteVolume`
  unfoldable pub median_quote_volume : List (Candle F) → Time → ℕ → Option F
  median_quote_volume candles as_of days = median_of (candles_in_window candles as_of days)

  abbrev pub by_liquidity : F → Option F → Verdict F
  by_liquidity min none = exclude insufficient_data
  by_liquidity min (some v) = if lt v min then exclude low_liquidity else include v

module _ {F D : Type 0} ⦃f : Float F⦄ where
  -- `evaluateCandidate`
  unfoldable pub evaluate_candidate :
      (Symbol → GoString) → Time → Candidate F D → Rules F → Verdict F
  evaluate_candidate text as_of c p =
      let since = listed_since c.market.listed_at c.candles in
      let liquid =
        by_liquidity p.min_volume (median_quote_volume c.candles as_of p.liquidity_days) in
      if not (c.market.quote == p.quote)
      then exclude wrong_quote
      else if is_leveraged (text c.market.symbol) p.patterns
      then exclude leveraged_token
      else if p.no_stablecoins && is_stablecoin (text c.market.base)
      then exclude stablecoin
      else if not (is_listed_at c.market as_of)
      then exclude inactive_at_date
      else if is_zero since
      then exclude unknown_listing_date
      else if ltb ((as_of - since) / day) p.min_age
      then exclude too_young
      else if ltb (length c.candles) p.need_bars
      then exclude insufficient_data
      else if not (is_empty (recent_quality_issues c.candles as_of p.quality_days p.tf))
      then exclude recent_quality_flag
      else liquid

  abbrev pub file_under : Candidate F D → Verdict F → Filtered F → Filtered F
  file_under c (exclude r) s = record s {
    excluded = s.excluded ++ (record { symbol = c.market.symbol; reason = r } ∷ []);
  }
  file_under c (include v) s = record s {
    included =
        s.included
        ++ (record {
          symbol = c.market.symbol;
          base = c.market.base;
          median_quote_volume = v;
          candles = c.candles;
        }
            ∷ []);
  }

  -- The loop over the candidates.
  unfoldable pub filter_all :
      (Symbol → GoString) → Time → List (Candidate F D) → Rules F → Filtered F → Filtered F
  filter_all text as_of [] p s = s
  filter_all text as_of (c ∷ cs) p s =
      filter_all text as_of cs p (file_under c (evaluate_candidate text as_of c p) s)

  -- `Filter`
  unfoldable pub filter :
      (Symbol → GoString) → Time → List (Candidate F D) → FilterParams F → Filtered F
  filter text as_of candidates params =
      filter_all text as_of candidates (with_defaults params)
        (record { included = []; excluded = [] })
