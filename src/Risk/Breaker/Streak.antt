-- ===== src/Risk/Breaker/Streak.antt =====
-- The count of consecutive losses against its meaning: breaker.go, Check.
use mathlib.Core.List.{reverse}
use crypto_swing_bot.Prelude.{
  ℕ, zero, suc, ◌≤◌, ◌≡◌, ◌↔◌, true, List, [], ◌∷◌, arith, length, take, All,
}
use crypto_swing_bot.Float.{Float}
use crypto_swing_bot.Risk.Breaker.{TradeResult, leading_losses, consecutive}

module _ {F : Type 0} ⦃f : Float F⦄ where
  open f use {lit, lt}

  abbrev pub IsLoss : TradeResult F → Type 0
  IsLoss tr = lt tr.pnl (lit 0 0) ≡ true

  leading_losses_iff :
      (n : ℕ) (trs : List (TradeResult F))
      → (n ≤ leading_losses trs) ↔ ((n ≤ length trs) × All IsLoss (take n trs))
  unfolding leading_losses
  leading_losses_iff zero trs = ground arith
  leading_losses_iff (suc n) [] = ground arith
  leading_losses_iff (suc n) (tr ∷ trs) = ground (arith, leading_losses_iff n trs)

  -- The count reaches `n` exactly if there are `n` trades and the `n` most recent ones are losses.
  pub consecutive_iff :
      (n : ℕ) (trades : List (TradeResult F))
      → (n ≤ consecutive trades)
        ↔ ((n ≤ length (reverse trades)) × All IsLoss (take n (reverse trades)))
  unfolding consecutive
  consecutive_iff n trades = leading_losses_iff n (reverse trades)
