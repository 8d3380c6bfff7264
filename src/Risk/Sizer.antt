-- ===== src/Risk/Sizer.antt =====
-- internal/risk/sizer.go: the quantity of an order from the risk budget and the stop distance.

pub mod Outcome
pub mod Caps
use crypto_swing_bot.Prelude.{
  Bool, true, false, ◌&&◌, ◌||◌, Option, none, some, if◌then◌else◌, ◌>>=◌,
}
use crypto_swing_bot.Float.{Float, Decimal, Convert, positive_or}
use crypto_swing_bot.Domain.{Signal, Portfolio, Market}
use crypto_swing_bot.Config.{RiskConfig}

-- Every reason code of the sizer and of the gate; the empty string is `none`.
pub data Reason : Type 0 where
  invalid_stop_distance zero_qty below_min_notional : Reason
  max_positions max_exposure already_open cooldown breaker_open insufficient_cash : Reason
  market_mismatch : Reason

pub record SizeResult (F D : Type 0) : Type 0 where
  pub qty : D
  pub risk_amount : F
  pub notional : F
  pub accepted : Bool
  pub reason : Option Reason
  pub capped_by_cash : Bool
  pub capped_by_max_position_pct : Bool

module _ {D : Type 0} ⦃d : Decimal D⦄ where
  open d use {sign_le_zero, greater_than, d_div, d_floor, d_mul}

  unfoldable pub floor_to_step : D → D → D
  floor_to_step qty step = if sign_le_zero step then qty else d_mul (d_floor (d_div qty step)) step

  -- One of the two trims: the quantity that is left, and whether it was trimmed.
  unfoldable pub trim : D → D → D × Bool
  trim qty limit = if greater_than qty limit then (limit, true) else (qty, false)

module _ {F D : Type 0} ⦃f : Float F⦄ ⦃d : Decimal D⦄ where
  open f use {lit}
  open d use {d_zero}

  -- The zero value of the struct, with a reason and the two flags.
  abbrev pub refused : Reason → Bool → Bool → SizeResult F D
  refused reason by_cash by_pct = record {
    qty = d_zero;
    risk_amount = lit 0 0;
    notional = lit 0 0;
    accepted = false;
    reason = some reason;
    capped_by_cash = by_cash;
    capped_by_max_position_pct = by_pct;
  }

module _ {F D : Type 0} ⦃f : Float F⦄ ⦃d : Decimal D⦄ ⦃c : Convert F D⦄ where
  open f use {lit, sub, mul, div, lt, le}
  open d use {sign_le_zero}
  open c use {new_from_float, to_float}

  -- The tests after the trims.
  unfoldable pub checked : Market D → F → F → D → Bool → Bool → SizeResult F D
  checked m entry stop_distance qty by_cash by_pct =
      let notional = mul (to_float qty) entry in
      let min_notional = to_float m.min_notional in
      if sign_le_zero qty
      then refused zero_qty by_cash by_pct
      else if lt (lit 0 0) min_notional && lt notional min_notional
      then refused below_min_notional by_cash by_pct
      else record {
        qty = qty;
        risk_amount = mul (to_float qty) stop_distance;
        notional = notional;
        accepted = true;
        reason = none;
        capped_by_cash = by_cash;
        capped_by_max_position_pct = by_pct;
      }

  -- The two trims, in the code's order, of the three quantities before their rounding.
  unfoldable pub trimmed : Market D → F → F → D → D → D → SizeResult F D
  trimmed m entry stop_distance raw_qty by_position by_cash =
      let step = m.step_size in
      let (qty, pct_flag) = trim (floor_to_step raw_qty step) (floor_to_step by_position step) in
      let (qty', cash_flag) = trim qty (floor_to_step by_cash step) in
      checked m entry stop_distance qty' cash_flag pct_flag

  -- The method `Size`; `none` is the panic of `NewFromFloat`.
  unfoldable pub size : RiskConfig F → Signal F → Portfolio F D → Market D → Option (SizeResult F D)
  size cfg signal portfolio m =
      let risk_per_trade = positive_or cfg.risk_per_trade (lit 1 2) in
      let max_position_pct = positive_or cfg.max_position_pct (lit 25 2) in
      let entry = signal.ref_price in
      let stop_distance = sub entry signal.stop_price in
      if le entry (lit 0 0) || le stop_distance (lit 0 0)
      then some (refused invalid_stop_distance false false)
      else do
        raw_qty ← new_from_float (div (mul portfolio.equity risk_per_trade) stop_distance)
        by_position ← new_from_float (div (mul portfolio.equity max_position_pct) entry)
        by_cash ← new_from_float (div portfolio.cash entry)
        some (trimmed m entry stop_distance raw_qty by_position by_cash)
