-- ===== src/Risk/Breaker/Latch.antt =====
-- The breaker stays open until it is reset, and a reset does not forget: breaker.go, Check and Reset.
use crypto_swing_bot.Prelude.{◌≡◌, refl, ◌∙◌, Bool, true, List, [], ◌∷◌, arith, keep}
use crypto_swing_bot.Float.{Float}
use crypto_swing_bot.Domain.{Time}
use crypto_swing_bot.Config.{BreakerConfig}
use crypto_swing_bot.Risk.Breaker.{
  TradeResult, OrderError, Breaker, closed, prune, record_trade, record_order_error, reset,
  new_peak, check,
}

keep-keep : {A : Type 0} (p : A → Bool) (xs : List A) → keep p (keep p xs) ≡ keep p xs
keep-keep p [] = refl
keep-keep p (x ∷ xs) = ground (arith, keep-keep p xs)

prune-prune :
    (now : Time) (errors : List OrderError) → prune now (prune now errors) ≡ prune now errors
unfolding prune
prune-prune now errors = keep-keep _ errors

-- One call of the breaker's methods, but for `Reset`.
pub data Call {F : Type 0} ⦃f : Float F⦄ (cfg : BreakerConfig F) (b : Breaker F)
    : Breaker F → Type 0 where
  trade : (tr : TradeResult F) → Call cfg b (record_trade b tr)
  error : (e : OrderError) → Call cfg b (record_order_error b e)
  checks : (equity : F) (now : Time) → Call cfg b (check cfg b equity now)

pub data Calls {F : Type 0} ⦃f : Float F⦄ (cfg : BreakerConfig F) (b : Breaker F)
    : Breaker F → Type 0 where
  here : Calls cfg b b
  next : {b' b'' : Breaker F} → Calls cfg b b' → Call cfg b' b'' → Calls cfg b b''

module _ {F : Type 0} ⦃f : Float F⦄ (cfg : BreakerConfig F) where
  new_peak-new_peak :
      (equity peak : F) → new_peak equity (new_peak equity peak) ≡ new_peak equity peak
  unfolding new_peak
  new_peak-new_peak equity peak = ground arith

  Call-state : {b b' : Breaker F} → Call cfg b b' → b.state.is_open ≡ true → b'.state ≡ b.state
  unfolding record_trade record_order_error check
  Call-state (trade tr) o = refl
  Call-state (error e) o = refl
  Call-state (checks equity now) o = ground arith

  -- An open breaker keeps its state, the reason and the instant of the trip too, through any number
  -- of trades, order errors and checks: only a reset closes it.
  pub Calls-state :
      {b b' : Breaker F} → Calls cfg b b' → b.state.is_open ≡ true → b'.state ≡ b.state
  Calls-state here o = refl
  Calls-state (next {b'} calls call) o = let e = Calls-state calls o in Call-state call (rw e o) ∙ e

  -- A reset does not help where nothing has improved: the check of a closed breaker, repeated after a
  -- reset with the same equity and instant, ends as it did, tripped for the same reason if it had
  -- tripped, with the same history and the same peak.
  pub check-reset :
      (b : Breaker F) (equity : F) (now : Time)
      → b.state ≡ closed
      → check cfg (reset (check cfg b equity now)) equity now ≡ check cfg b equity now
  unfolding check reset
  check-reset b equity now c = rw (c, prune-prune, new_peak-new_peak) refl
