-- ===== src/Universe/Tests.antt =====
-- A market of which the listing date is not known, and the theorems at it.
use crypto_swing_bot.Prelude.{
  ℕ, ◌-◌, ◌*◌, ◌≤◌, ◌<◌, ◌≡◌, ◌≢◌, ◌↔◌, refl, ℤ, pos, true, false, [], ◌∷◌, All, arith,
}
use crypto_swing_bot.Float.Whole.{whole_float}
use crypto_swing_bot.Domain.{Symbol, Candle}
use crypto_swing_bot.Risk.Breaker.{day}
use crypto_swing_bot.Notify.Approval.{GoString}
use crypto_swing_bot.Universe.Names.{
  is_leveraged, to_upper, contains, has_prefix, default_exclude_patterns,
}
use crypto_swing_bot.Universe.Filter.{
  FilterParams, with_defaults, Candidate, include, candle_lookback_days, evaluate_candidate,
}
use crypto_swing_bot.Universe.Filter.Eligible.{
  Eligible, evaluate_candidate-include_iff, evaluate_candidate_unlisted,
}

abbrev bar : ℕ → Candle ℤ
bar n = record {
  open_time = n * day;
  open_price = pos 100;
  high = pos 110;
  low = pos 90;
  close = pos 100;
  volume = pos 1;
  quote_volume = pos 9_000_000;
}

abbrev unlisted : Candidate ℤ ℤ
unlisted = record {
  market = record {
    symbol = 7;
    base = 1;
    quote = 2;
    active = true;
    tick_size = pos 1;
    step_size = pos 1;
    min_notional = pos 1;
    listed_at = 0;
    delisted_at = 0;
  };
  candles = bar 399 ∷ bar 400 ∷ [];
}

abbrev params : FilterParams ℤ
params = record {
  quote = 2;
  min_median_quote_volume = pos 0;
  min_listing_age_days = pos 0;
  warmup_bars = pos 0;
  exclude_patterns = [];
  exclude_stablecoins = true;
  liquidity_lookback_days = pos 0;
  quality_lookback_days = pos 0;
  timeframe = pos 0;
}

-- "AB/C", for every symbol.
abbrev text : Symbol → GoString
text s = 65 ∷ 66 ∷ 47 ∷ 67 ∷ []

-- "SUPER/USDT" has the letters UP, but not the pattern "UP/"; "btcup/usdt" has it.
super_is_plain :
    is_leveraged (83 ∷ 85 ∷ 80 ∷ 69 ∷ 82 ∷ 47 ∷ 85 ∷ 83 ∷ 68 ∷ 84 ∷ []) default_exclude_patterns
    ≡ false
unfolding is_leveraged to_upper contains has_prefix
super_is_plain = refl

btcup_is_leveraged :
    is_leveraged
      (98 ∷ 116 ∷ 99 ∷ 117 ∷ 112 ∷ 47 ∷ 117 ∷ 115 ∷ 100 ∷ 116 ∷ [])
      default_exclude_patterns
    ≡ true
unfolding is_leveraged to_upper contains has_prefix
btcup_is_leveraged = refl

evaluate_candidate-include_iff_example :
    (evaluate_candidate text (400 * day) unlisted (with_defaults params) ≡ include (pos 9_000_000))
    ↔ Eligible text (400 * day) unlisted (with_defaults params) (pos 9_000_000)
evaluate_candidate-include_iff_example =
    evaluate_candidate-include_iff text (400 * day) unlisted (with_defaults params) (pos 9_000_000)

recent_bars :
    All (λ b. 400 * day - candle_lookback_days params * day ≤ b.open_time) unlisted.candles
unfolding candle_lookback_days with_defaults
recent_bars = (omega arith, (omega arith, tt))

short_lookback : candle_lookback_days params < (with_defaults params).min_age
unfolding candle_lookback_days with_defaults
short_lookback = omega arith

evaluate_candidate_unlisted_example :
    evaluate_candidate text (400 * day) unlisted (with_defaults params) ≢ include (pos 9_000_000)
evaluate_candidate_unlisted_example =
    evaluate_candidate_unlisted text (400 * day) unlisted params (pos 9_000_000) refl recent_bars
      short_lookback
