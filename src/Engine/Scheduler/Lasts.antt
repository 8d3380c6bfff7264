-- ===== src/Engine/Scheduler/Lasts.antt =====
-- internal/engine/scheduler.go, Run: a day that fails does not end the loop.
use crypto_swing_bot.Prelude.{◌≡◌, true}
use crypto_swing_bot.Float.{Float}
use crypto_swing_bot.Engine.World.{World, Step, goes, stops, panics, context_canceled}
use crypto_swing_bot.Engine.Decisions.{is_due}

module _ {F D : Type 0} where
  -- It goes on, or it was canceled; a panic of the decimal package ends the program.
  abbrev pub IsLasting : Step F D (Unit {0}) → Type 0
  IsLasting (goes u w) = Unit
  IsLasting (stops e w) = (e ≡ context_canceled) × (is_due w.now w.cancel_at ≡ true)
  IsLasting panics = Unit
