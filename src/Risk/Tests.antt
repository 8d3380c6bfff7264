-- ===== src/Risk/Tests.antt =====
-- Runs of the sizer, the gate and the breaker on numbers with six decimals.
use crypto_swing_bot.Prelude.{
  ℕ, ◌≡◌, ◌≢◌, ◌≤◌, ◌↔◌, refl, ◌⊎◌, ℤ, pos, ◌*◌, true, false, Option, none, some, List, [], ◌∷◌,
  arith, take, All, length,
}
use mathlib.Core.List.{reverse}
use crypto_swing_bot.Float.Fixed.{Fixed, fixed_float, fixed_decimal, fixed_convert}
use crypto_swing_bot.Domain.{Signal, enter, Portfolio, Market, exposure, hour}
use crypto_swing_bot.Config.{RiskConfig, BreakerConfig}
use crypto_swing_bot.Risk.Sizer.{Reason, SizeResult, size, trimmed, checked, trim, floor_to_step}
use crypto_swing_bot.Risk.Sizer.Outcome.{
  IsRefusal, IsSized, Unconvertible, size_outcome, size-none_iff,
}
use crypto_swing_bot.Risk.Sizer.Caps.{IsOrder, IsCapped, size_caps, size_step}
use crypto_swing_bot.Risk.Gate.{
  Decision, GateInput, evaluate, first_broken, in_cooldown, cannot_afford,
}
use crypto_swing_bot.Risk.Gate.Rules.{
  Passes, IsSizedBy, evaluate-approved_iff, evaluate-reason_iff, evaluate_breaker,
}
use crypto_swing_bot.Risk.Breaker.{
  Breaker, max_drawdown, TradeResult, closed, check, reset, condition, prune, consecutive,
  drawdown_trips, new_peak, new_breaker, record_trade,
}
use crypto_swing_bot.Risk.Breaker.Latch.{Calls-state, check-reset}
use crypto_swing_bot.Risk.Breaker.Latch
use crypto_swing_bot.Risk.Breaker.Streak.{IsLoss, consecutive_iff}
use crypto_swing_bot.Risk.Breaker.Window.{Event, IsChronological, run, run_all, run_refines}
use crypto_swing_bot.Risk.Breaker.Window

abbrev num : ℕ → Fixed
num n = fixed_float.lit n 0

abbrev unset : RiskConfig Fixed
unset = record {
  risk_per_trade = num 0;
  max_positions = pos 0;
  max_exposure = num 0;
  max_position_pct = num 0;
  cooldown_hours = pos 0;
}

abbrev long : Signal Fixed
long = record {
  as_of = 0;
  symbol = 7;
  kind = enter;
  score = num 0;
  ref_price = num 100;
  stop_price = num 90;
}

abbrev account : Portfolio Fixed ℤ
account = record { cash = num 10000; positions = []; equity = num 10000 }

abbrev units : ℕ → ℤ
units n = pos (n * 1_000_000)

abbrev spot : Market ℤ
spot = record {
  symbol = 7;
  base = 1;
  quote = 2;
  active = true;
  tick_size = units 1;
  step_size = units 3;
  min_notional = units 10;
  listed_at = 0;
  delisted_at = 0;
}

-- 1% of 10000 over a stop distance of 10 is 10 units: three steps of 3.
abbrev nine : SizeResult Fixed ℤ
nine = record {
  qty = units 9;
  risk_amount = num 90;
  notional = num 900;
  accepted = true;
  reason = none;
  capped_by_cash = false;
  capped_by_max_position_pct = false;
}

size_nine : size unset long account spot ≡ some nine
unfolding size trimmed checked trim floor_to_step
size_nine = refl

size_outcome_example : IsRefusal nine ⊎ IsSized long spot nine
size_outcome_example = size_outcome unset long account spot nine size_nine

fixed-IsOrder : IsOrder ℤ
fixed-IsOrder = record {
  at_most_refl = λ a. ground arith;
  at_most_of_greater = λ a b h. ground arith;
  at_most_trans = λ a b c h k. ground arith;
}

size_caps_example : IsCapped unset long account spot nine
size_caps_example = size_caps unset long account spot nine fixed-IsOrder size_nine refl

size_step_example :
    (q : ℤ) × (nine.qty ≡ fixed_decimal.d_mul (fixed_decimal.d_floor q) spot.step_size)
size_step_example = size_step unset long account spot nine size_nine refl refl

-- A signal without a price, which is NaN, passes the guards and reaches the conversion.
abbrev nameless : Signal Fixed
nameless = record long { ref_price = none }

size-none_iff_example :
    (size unset nameless account spot ≡ none) ↔ Unconvertible unset nameless account
size-none_iff_example = size-none_iff unset nameless account spot

size_panics : size unset nameless account spot ≡ none
unfolding size
size_panics = refl

abbrev question : GateInput Fixed ℤ
question = record {
  portfolio = account;
  market = spot;
  now = 100;
  last_exit_at = 0;
  breaker_open = false;
}

abbrev approval : Decision Fixed ℤ
approval = record { signal = long; approved = true; reason = none; size = some nine }

question_approved : evaluate unset unset long question ≡ some approval
unfolding evaluate first_broken in_cooldown cannot_afford exposure size trimmed checked trim
    floor_to_step
question_approved = refl

evaluate-approved_iff_example :
    (true ≡ true) ↔ (Passes unset long question × IsSizedBy unset long question approval)
evaluate-approved_iff_example =
    evaluate-approved_iff unset unset long question refl question_approved

evaluate-reason_iff_example : (long ≡ long) × ((true ≡ false) ↔ (◌≢◌ {A = Option Reason} none none))
evaluate-reason_iff_example = evaluate-reason_iff unset unset long question question_approved

evaluate_breaker_example :
    (z : Decision Fixed ℤ) × (evaluate unset unset long (record question { breaker_open = true })
      ≡ some z)
    × ((z.approved ≡ true) ↔ (long.kind ≢ enter))
evaluate_breaker_example =
    evaluate_breaker unset unset long (record question { breaker_open = true }) refl

abbrev limits : BreakerConfig Fixed
limits = record {
  max_drawdown = num 0;
  max_daily_loss = num 0;
  max_consecutive_losses = pos 0;
  max_order_errors_24h = pos 2;
}

abbrev high : Breaker Fixed
high = record { state = closed; trades = []; errors = []; peak_equity = num 1000 }

-- A fall from 1000 to 800 is 20%, over the limit of 15%.
abbrev fallen : Breaker Fixed
fallen = record high { state = record { is_open = true; reason = some max_drawdown; at = 5 } }

falls : check limits high (num 800) 5 ≡ fallen
unfolding check condition drawdown_trips new_peak prune
falls = refl

check-reset_example :
    check limits (reset (check limits high (num 800) 5)) (num 800) 5 ≡ check limits high (num 800) 5
check-reset_example = check-reset limits high (num 800) 5 refl

abbrev loss : TradeResult Fixed
loss = record { closed_at = 3; pnl = fixed_float.neg (num 4) }

Calls-state_example : (check limits (record_trade fallen loss) (num 2000) 9).state ≡ fallen.state
Calls-state_example =
    Calls-state limits
      (Latch.next (Latch.next Latch.here (Latch.trade loss)) (Latch.checks (num 2000) 9)) refl

abbrev won : TradeResult Fixed
won = record { closed_at = 3; pnl = num 4 }

consecutive_iff_example : (2 ≤ consecutive (won ∷ loss ∷ loss ∷ [])) ↔ (
    (2 ≤ length (reverse (won ∷ loss ∷ loss ∷ [])))
    × All IsLoss (take 2 (reverse (won ∷ loss ∷ loss ∷ []))))
consecutive_iff_example = consecutive_iff 2 (won ∷ loss ∷ loss ∷ [])

abbrev failure : ℕ → Event Fixed
failure h = Window.error (record { at = h * hour })

-- The first failure has left the window at the second check, and the later two trip the breaker.
abbrev events : List (Event Fixed)
events =
    failure 1
    ∷ Window.checks (num 100) (2 * hour)
    ∷ failure 30
    ∷ failure 31
    ∷ Window.checks (num 100) (32 * hour)
    ∷ []

run_refines_example :
    (run limits new_breaker events).state ≡ (run_all limits new_breaker events).state
run_refines_example = run_refines limits events (omega arith)
