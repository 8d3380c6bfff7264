-- ===== src/Engine/Daily/Once.antt =====
-- internal/engine/daily.go, RunOnce: a day is processed once, and its tables describe its account.
use mathlib.Core.Path.{subst}
use crypto_swing_bot.Prelude.{
  ◌≡◌, ◌≤◌, ◌/◌, refl, sym, ◌∙◌, ap, ◌⊎◌, inl, inr, true, Bool-cases, arith,
}
use crypto_swing_bot.Float.{Float, Decimal, Convert}
use crypto_swing_bot.Domain.{Time}
use crypto_swing_bot.Risk.Breaker.{day}
use crypto_swing_bot.Engine.World.{World, Step, goes}
use crypto_swing_bot.Engine.After.{After}
use crypto_swing_bot.Engine.Tables.{list_equity_snapshots}
use crypto_swing_bot.Engine.Tables.Latest.{is_from_any, is_from_any-le, last_is_from-list}
use crypto_swing_bot.Engine.Resubmit.{EngineConfig}
use crypto_swing_bot.Engine.Daily.{Surroundings, candle_day, already_processed, run_once}
use crypto_swing_bot.Engine.Daily.InStep.{stored-candle_day, already_processed-last}
use crypto_swing_bot.Engine.Daily.Traded.{IsProcessed, run_day-IsProcessed}

candle_day_le : (s t : Time) → s / day ≤ t / day → candle_day s ≤ candle_day t
unfolding candle_day
candle_day_le s t h = omega (arith, h)

module _ {F D : Type 0} ⦃f : Float F⦄ ⦃d : Decimal D⦄ ⦃c : Convert F D⦄ where
  pub run_once-IsProcessed :
      (cfg : EngineConfig F D) (out : Surroundings F D) (w w' : World F D)
      → run_once cfg out w ≡ goes tt w'
      → (is_from_any (candle_day w.now) w.snapshots ≡ true) × (w' ≡ w)
        ⊎ IsProcessed cfg out w.now (candle_day w.now) w w'
  unfolding run_once
  run_once-IsProcessed cfg out w w' e =
      elim (Bool-cases (already_processed (candle_day w.now) (list_equity_snapshots w.snapshots))) [
        | inl already ↦ inl (
          sym (
                already_processed-last (candle_day w.now) (list_equity_snapshots w.snapshots)
                ∙ last_is_from-list (candle_day w.now) w.snapshots)
              ∙ already,
          world_of (sym (rw already refl) ∙ e),
        )
        | inr fresh ↦ inr (
            subst (After λ u v. IsProcessed cfg out w.now (candle_day w.now) w v)
              (sym (rw fresh refl) ∙ e)
              (run_day-IsProcessed cfg out w.now (candle_day w.now) w (stored-candle_day w.now)))
      ]
    where
      world_of : Path (Step F D (Unit {0})) (goes tt w) (goes tt w') → w' ≡ w
      world_of g = subst (After λ u v. v ≡ w) g refl

  -- When the cycle of a day is completed, every further call at any instant up to the end of the same
  -- day of UTC goes through and changes nothing, whatever the configuration, the surroundings and all
  -- else of the world it is made in, as long as the table of the equity snapshots is as it was left.
  pub run_once-again :
      (cfg cfg2 : EngineConfig F D) (out again : Surroundings F D) (w w' v : World F D)
      → run_once cfg out w ≡ goes tt w'
      → v.snapshots ≡ w'.snapshots
      → v.now / day ≤ w.now / day
      → run_once cfg2 again v ≡ goes tt v
  unfolding run_once
  run_once-again cfg cfg2 out again w w' v e same le =
      rw
        (already_processed-last (candle_day v.now) (list_equity_snapshots v.snapshots)
          ∙ last_is_from-list (candle_day v.now) v.snapshots
          ∙ ap (is_from_any (candle_day v.now)) same
          ∙ is_from_any-le (candle_day v.now) (candle_day w.now) w'.snapshots
              (candle_day_le v.now w.now le) (processed (run_once-IsProcessed cfg out w w' e)))
        refl
    where
      processed :
          ((is_from_any (candle_day w.now) w.snapshots ≡ true) × (w' ≡ w)
            ⊎ IsProcessed cfg out w.now (candle_day w.now) w w')
          → is_from_any (candle_day w.now) w'.snapshots ≡ true
      processed (inl before) =
          ap (λ x. is_from_any (candle_day w.now) x.snapshots) before.1 ∙ before.0
      processed (inr step) = step.6.8.2
