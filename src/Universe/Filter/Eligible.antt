-- ===== src/Universe/Filter/Eligible.antt =====
-- internal/universe/filter.go: the rules of Filter against their specification.
use crypto_swing_bot.Prelude.{
  ◌-◌, ◌*◌, ◌≤◌, ◌<◌, ◌≡◌, ◌≢◌, refl, ◌⊎◌, inl, inr, ◌↔◌, true, false, Bool-cases, Option, none,
  some, List, [], ◌∷◌, length, All, arith,
}
use crypto_swing_bot.Float.{Float}
use crypto_swing_bot.Domain.{Symbol, Time, Candle, is_listed_at}
use crypto_swing_bot.Risk.Breaker.{day}
use crypto_swing_bot.Backtest.Run.{is_empty}
use crypto_swing_bot.Notify.Approval.{GoString}
use crypto_swing_bot.Universe.Names.{is_leveraged, is_stablecoin}
use crypto_swing_bot.Universe.Filter.{
  FilterParams, Rules, with_defaults, Candidate, include, by_liquidity, first_open,
  candle_lookback_days, listed_since, recent_quality_issues, median_quote_volume,
  evaluate_candidate,
}

module _ {F : Type 0} ⦃f : Float F⦄ where
  open f use {lt}

  first_open_late :
      (t : Time) (candles : List (Candle F))
      → All (λ b. t ≤ b.open_time) candles
      → (first_open candles ≡ 0) ⊎ (t ≤ first_open candles)
  first_open_late t [] h = inl refl
  first_open_late t (b ∷ bs) h = inr h.0

  by_liquidity-include :
      (min v : F) (o : Option F)
      → by_liquidity min o ≡ include v
      → (o ≡ some v) × (lt v min ≡ false)
  by_liquidity-include min v none e = absurd (ground (arith, e))
  by_liquidity-include min v (some u) e = elim (Bool-cases (lt u min)) [
    | inl low ↦ absurd (ground (arith, low, e))
    | inr enough ↦ ground (arith, enough, e)
  ]

module _ {F D : Type 0} ⦃f : Float F⦄ where
  open f use {lt}

  -- The table of the rules: each line is one rule, in no order. `v` is the median of the volume.
  pub record Eligible (text : Symbol → GoString) (as_of : Time) (c : Candidate F D) (p : Rules F)
      (v : F) : Type 0 where
    pub right_quote : c.market.quote ≡ p.quote
    pub unleveraged : is_leveraged (text c.market.symbol) p.patterns ≡ false
    pub no_stablecoin : (p.no_stablecoins ≡ false) ⊎ (is_stablecoin (text c.market.base) ≡ false)
    pub listed : is_listed_at c.market as_of ≡ true
    pub known : listed_since c.market.listed_at c.candles ≢ 0
    pub old : p.min_age * day ≤ as_of - listed_since c.market.listed_at c.candles
    pub long : p.need_bars ≤ length c.candles
    pub unflagged : is_empty (recent_quality_issues c.candles as_of p.quality_days p.tf) ≡ true
    pub traded : median_quote_volume c.candles as_of p.liquidity_days ≡ some v
    pub liquid : lt v p.min_volume ≡ false

  include-Eligible :
      (text : Symbol → GoString) (as_of : Time) (c : Candidate F D) (p : Rules F) (v : F)
      → evaluate_candidate text as_of c p ≡ include v
      → Eligible text as_of c p v
  unfolding evaluate_candidate
  include-Eligible text as_of c p v e = ground (
    arith,
    by_liquidity-include p.min_volume v (median_quote_volume c.candles as_of p.liquidity_days),
  )

  Eligible-include :
      (text : Symbol → GoString) (as_of : Time) (c : Candidate F D) (p : Rules F) (v : F)
      → Eligible text as_of c p v
      → evaluate_candidate text as_of c p ≡ include v
  unfolding evaluate_candidate
  Eligible-include text as_of c p v h = ground (
    arith, h.right_quote, h.unleveraged, h.no_stablecoin, h.listed, h.known, h.old, h.long,
    h.unflagged, h.traded, h.liquid,
  )

  -- A candidate is included, with this median, exactly if it passes every rule of the table.
  pub evaluate_candidate-include_iff :
      (text : Symbol → GoString) (as_of : Time) (c : Candidate F D) (p : Rules F) (v : F)
      → (evaluate_candidate text as_of c p ≡ include v) ↔ Eligible text as_of c p v
  evaluate_candidate-include_iff text as_of c p v =
      (include-Eligible text as_of c p v, Eligible-include text as_of c p v)

  -- A market without a listing date is never included, however long it is traded, where the days that
  -- its bars are read back are less than the age that is asked for: its age is counted from the first
  -- of these bars.
  pub evaluate_candidate_unlisted :
      (text : Symbol → GoString) (as_of : Time) (c : Candidate F D) (params : FilterParams F)
      (v : F)
      → c.market.listed_at ≡ 0
      → All (λ b. as_of - candle_lookback_days params * day ≤ b.open_time) c.candles
      → candle_lookback_days params < (with_defaults params).min_age
      → evaluate_candidate text as_of c (with_defaults params) ≢ include v
  unfolding listed_since
  evaluate_candidate_unlisted text as_of c params v unlisted recent short e =
      let h = include-Eligible text as_of c (with_defaults params) v e in
      let n = candle_lookback_days params in
      elim (first_open_late (as_of - n * day) c.candles recent) [
        | inl no_bar ↦ h.known (rw (unlisted, no_bar) refl)
        | inr late ↦
            let age : (with_defaults params).min_age * day ≤ as_of - first_open c.candles =
              ground (arith, h.old, unlisted) in
            absurd (omega (arith, late, age, short))
      ]
