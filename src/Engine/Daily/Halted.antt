-- ===== src/Engine/Daily/Halted.antt =====
-- internal/engine/daily.go, RunOnce while the breaker is open.
use crypto_swing_bot.Prelude.{ℕ, ◌≡◌, refl, ◌∙◌, ap, Bool, true, not, List, [], ◌∷◌, All, keep}
use crypto_swing_bot.Float.{Float, Decimal, Convert}
use crypto_swing_bot.Domain.{Time, Signal, SignalKind, enter, exit, stop_update, Portfolio}
use crypto_swing_bot.Risk.Breaker.{check}
use crypto_swing_bot.Risk.Breaker.Latch.{checks, here, next, Calls-state}
use crypto_swing_bot.Backtest.Run.{is_entry}
use crypto_swing_bot.Engine.World.{World, goes}
use crypto_swing_bot.Engine.After.{After, bind-After, bind-goes, ended}
use crypto_swing_bot.Engine.Resubmit.{EngineConfig}
use crypto_swing_bot.Engine.Rebuild.{DaySnapshot}
use crypto_swing_bot.Engine.Exits.{process_all}
use crypto_swing_bot.Engine.Exits.Sells.{buys, IsCalm, process_all-IsCalm}
use crypto_swing_bot.Engine.Entries.{propose_all, submit_all}
use crypto_swing_bot.Engine.Entries.Quiet.{propose_all-quiet}
use crypto_swing_bot.Engine.Decisions.{by_id, await_decisions}
use crypto_swing_bot.Engine.Decisions.Loop.{await_loop-done}
use crypto_swing_bot.Engine.Daily.{Surroundings, act_on_signals}

module _ {F : Type 0} where
  entries-All :
      (signals : List (Signal F)) → All (λ s. s.kind ≡ enter) (keep (λ s. is_entry s.kind) signals)
  entries-All [] = tt
  entries-All (s ∷ rest) = by_kind s.kind refl (entries-All rest)
    where
      by_kind :
          (k : SignalKind)
          → s.kind ≡ k
          → All (λ x. x.kind ≡ enter) (keep (λ x. is_entry x.kind) rest)
          → All (λ x. x.kind ≡ enter) (keep (λ x. is_entry x.kind) (s ∷ rest))
      by_kind enter e others = rw e (refl, others)
      by_kind exit e others = rw e others
      by_kind stop_update e others = rw e others

module _ {F D : Type 0} where
  await_nothing :
      (fuel : ℕ) (first : ℕ → Bool) (poll : Time) (w : World F D)
      → await_decisions fuel first poll [] w ≡ goes [] w
  unfolding await_decisions by_id
  await_nothing fuel first poll w = await_loop-done fuel first poll [] w

module _ {F D : Type 0} ⦃f : Float F⦄ ⦃d : Decimal D⦄ ⦃c : Convert F D⦄ where
  -- While the breaker is open, a day queues no entry at the broker, whatever the strategy asks for,
  -- the operator decides and the exits do: if the day goes on, it leaves the entries that were
  -- waiting, and the breaker stays open.
  pub act_on_signals-IsCalm :
      (cfg : EngineConfig F D) (out : Surroundings F D) (now as_of : Time) (p : Portfolio F D)
      (signals : List (Signal F)) (snap : DaySnapshot F D) (w : World F D)
      → snap.breaker.state.is_open ≡ true
      → After
          (λ s w'. IsCalm (buys snap.broker) s)
          (act_on_signals cfg out now as_of p signals snap w)
  unfolding act_on_signals submit_all
  act_on_signals-IsCalm cfg out now as_of p signals snap w o =
      bind-After (λ s w'. IsCalm (buys snap.broker) s) (λ s w'. IsCalm (buys snap.broker) s)
        (λ w0.
          ended (process_all cfg p now as_of (keep (λ s. not (is_entry s.kind)) signals) snap w0))
        _ w
        (process_all-IsCalm (buys snap.broker) cfg p now as_of
          (keep (λ s. not (is_entry s.kind)) signals) snap w (o, refl))
        λ snap1 w1 calm.
          let snap2 : DaySnapshot F D = record snap1 {
            breaker = check cfg.breaker snap1.breaker p.equity now;
          } in
          let o2 : snap2.breaker.state.is_open ≡ true =
            ap (λ s. s.is_open) (Calls-state cfg.breaker (next here (checks p.equity now)) calm.0)
            ∙ calm.0 in
          let (w2, quiet) =
            propose_all-quiet cfg p now as_of snap2 (keep (λ s. is_entry s.kind) signals) [] w1 o2
              (entries-All signals) in
          bind-goes calm_after
            (λ w0.
              ended (propose_all cfg p now as_of snap2 (keep (λ s. is_entry s.kind) signals) [] w0))
            _ w1 [] w2 (rw quiet refl)
            (bind-goes calm_after
              (λ w0. await_decisions (out.fuel w0) out.cancel_first cfg.poll_interval [] w0) _ w2 []
              w2 (await_nothing (out.fuel w2) out.cancel_first cfg.poll_interval w2) (o2, calm.1))
    where
      calm_after : DaySnapshot F D → World F D → Type 0
      calm_after s w' = IsCalm (buys snap.broker) s
