-- ===== src/Risk/Breaker.antt =====
-- internal/risk/breaker.go: the circuit breaker. Without the `Detail` of a state, a text for the reader
-- of a log.
pub mod Latch
pub mod Streak
pub mod Window
use mathlib.Core.List.{reverse}
use crypto_swing_bot.Prelude.{
  ℕ, suc, ◌+◌, ◌-◌, ◌*◌, ◌%◌, Bool, true, false, ◌&&◌, not, Option, none, some, List, [], ◌∷◌, ◌++◌,
  if◌then◌else◌, ltb, leb, length, keep, or_default,
}
use crypto_swing_bot.Float.{Float, positive_or}
use crypto_swing_bot.Domain.{Time, hour}
use crypto_swing_bot.Config.{BreakerConfig}

pub data BreakerReason : Type 0 where
  max_drawdown consecutive_losses daily_loss order_errors : BreakerReason

pub record TradeResult (F : Type 0) : Type 0 where
  pub closed_at : Time
  pub pnl : F

pub record OrderError : Type 0 where
  pub at : Time

pub record State : Type 0 where
  pub is_open : Bool
  pub reason : Option BreakerReason
  pub at : Time

pub record Breaker (F : Type 0) : Type 0 where
  pub state : State
  pub trades : List (TradeResult F)
  pub errors : List OrderError
  pub peak_equity : F

abbrev pub closed : State
closed = record { is_open = false; reason = none; at = 0 }

-- `trip`, and the state that is left where nothing trips.
abbrev pub tripped : State → Option BreakerReason → Time → State
tripped s none now = s
tripped s (some r) now = record { is_open = true; reason = some r; at = now }

abbrev pub day : Time
day = 24 * hour

-- The errors that are not before `now - 24h`; before the first day of time the cut stops at 0.
unfoldable pub prune : Time → List OrderError → List OrderError
prune now errors = keep (λ e. not (ltb e.at (now - day))) errors

-- The errors that are not after `now`.
unfoldable pub count_until : Time → List OrderError → ℕ
count_until now errors = length (keep (λ e. not (ltb now e.at)) errors)

-- The trade was closed on the UTC day of `now`, an instant in UTC.
unfoldable pub closed_on_day : Time → Time → Bool
closed_on_day now closed_at =
    let day_start = now - now % day in
    not (ltb closed_at day_start) && ltb closed_at (day_start + day)

module _ {F : Type 0} where
  unfoldable pub record_trade : Breaker F → TradeResult F → Breaker F
  record_trade b tr = record b { trades = b.trades ++ (tr ∷ []) }

  unfoldable pub record_order_error : Breaker F → OrderError → Breaker F
  record_order_error b e = record b { errors = b.errors ++ (e ∷ []) }

  unfoldable pub reset : Breaker F → Breaker F
  reset b = record b { state = closed }

module _ {F : Type 0} ⦃f : Float F⦄ where
  open f use {lit, add, sub, div, neg, lt, le}

  unfoldable pub new_breaker : Breaker F
  new_breaker = record { state = closed; trades = []; errors = []; peak_equity = lit 0 0 }

  -- The loop over the trades from the last one: it stops at the first that is no loss.
  unfoldable pub leading_losses : List (TradeResult F) → ℕ
  leading_losses [] = 0
  leading_losses (tr ∷ trs) = if lt tr.pnl (lit 0 0) then suc (leading_losses trs) else 0

  unfoldable pub consecutive : List (TradeResult F) → ℕ
  consecutive trades = leading_losses (reverse trades)

  -- The loop that adds up the profits and losses of the day, from the first trade.
  unfoldable pub daily_pnl : Time → F → List (TradeResult F) → F
  daily_pnl now acc [] = acc
  daily_pnl now acc (tr ∷ trs) =
      daily_pnl now (if closed_on_day now tr.closed_at then add acc tr.pnl else acc) trs

  unfoldable pub drawdown_trips : BreakerConfig F → F → F → Bool
  drawdown_trips cfg peak equity =
      lt (lit 0 0) peak && le (positive_or cfg.max_drawdown (lit 15 2)) (div (sub peak equity) peak)

  unfoldable pub daily_loss_trips : BreakerConfig F → F → F → Bool
  daily_loss_trips cfg pnl equity =
      (lt pnl (lit 0 0) && lt (lit 0 0) equity)
      && le (positive_or cfg.max_daily_loss (lit 5 2)) (div (neg pnl) equity)

  -- The four conditions of `Check`, in its order, on the pruned errors.
  unfoldable pub condition :
      BreakerConfig F → List (TradeResult F) → List OrderError → F → F → Time → Option BreakerReason
  condition cfg trades errors peak equity now =
      if drawdown_trips cfg peak equity
      then some max_drawdown
      else if leb (or_default cfg.max_consecutive_losses 6) (consecutive trades)
      then some consecutive_losses
      else if daily_loss_trips cfg (daily_pnl now (lit 0 0) trades) equity
      then some daily_loss
      else if leb (or_default cfg.max_order_errors_24h 3) (count_until now errors)
      then some order_errors
      else none

  unfoldable pub new_peak : F → F → F
  new_peak equity peak = if lt peak equity then equity else peak

  -- The method `Check`: the new breaker, whose state is the result.
  unfoldable pub check : BreakerConfig F → Breaker F → F → Time → Breaker F
  check cfg b equity now =
      let peak = new_peak equity b.peak_equity in
      let errors = prune now b.errors in
      record b {
        peak_equity = peak;
        errors = errors;
        state =
            if b.state.is_open
            then b.state
            else tripped b.state (condition cfg b.trades errors peak equity now) now;
      }
