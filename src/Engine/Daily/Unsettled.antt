-- ===== src/Engine/Daily/Unsettled.antt =====
-- internal/engine/daily.go, RunOnce: acting on the signals of a day settles nothing.
use crypto_swing_bot.Prelude.{◌≡◌, refl, not, List, [], keep}
use crypto_swing_bot.Float.{Float, Decimal, Convert}
use crypto_swing_bot.Domain.{Time, Signal, Portfolio}
use crypto_swing_bot.Risk.Breaker.{check}
use crypto_swing_bot.Broker.Book.{PaperBroker}
use crypto_swing_bot.Backtest.Run.{is_entry}
use crypto_swing_bot.Engine.World.{World, goes, M, ◌>>=◌}
use crypto_swing_bot.Engine.After.{After, bind-After, self-After, ended}
use crypto_swing_bot.Engine.Resubmit.{EngineConfig}
use crypto_swing_bot.Engine.Rebuild.{DaySnapshot}
use crypto_swing_bot.Engine.Exits.{process_all}
use crypto_swing_bot.Engine.Exits.Sells.{process_all-keeps}
use crypto_swing_bot.Engine.Entries.{propose_all}
use crypto_swing_bot.Engine.Decisions.{await_decisions}
use crypto_swing_bot.Engine.Notices.{note_order_error}
use crypto_swing_bot.Engine.Daily.{Surroundings, act_on_signals}
use crypto_swing_bot.Broker.Orders.Unsettled.{IsUnsettled, IsUnsettled-trans, submit-IsUnsettled}
use crypto_swing_bot.Engine.Entries.Unsettled.{submit_all-IsUnsettled}

module _ {F D : Type 0} ⦃f : Float F⦄ ⦃d : Decimal D⦄ ⦃c : Convert F D⦄ where
  note-IsUnsettled :
      (b : PaperBroker F D) (now : Time) (snap : DaySnapshot F D) (w : World F D)
      → IsUnsettled b snap.broker
      → IsUnsettled b (note_order_error now snap w).0.broker
  unfolding note_order_error
  note-IsUnsettled b now snap w h = h

  -- What is done with the signals of a day settles nothing.
  pub act_on_signals-IsUnsettled :
      (cfg : EngineConfig F D) (out : Surroundings F D) (now as_of : Time) (p : Portfolio F D)
      (signals : List (Signal F)) (snap : DaySnapshot F D) (w : World F D)
      → After
          (λ s w'. IsUnsettled snap.broker s.broker)
          (act_on_signals cfg out now as_of p signals snap w)
  unfolding act_on_signals
  act_on_signals-IsUnsettled cfg out now as_of p signals snap w =
      let P : DaySnapshot F D → World F D → Type 0 = λ s w'. IsUnsettled snap.broker s.broker in
      let exits = keep (λ s. not (is_entry s.kind)) signals in
      let entries = keep (λ s. is_entry s.kind) signals in
      bind-After P P (λ w0. ended (process_all cfg p now as_of exits snap w0)) _ w
        (process_all-keeps (λ s. IsUnsettled snap.broker s.broker)
          (λ s req is_sell h.
            IsUnsettled-trans snap.broker s.broker _ h (submit-IsUnsettled s.broker req))
          (note-IsUnsettled snap.broker) cfg p now as_of exits snap w (refl, refl, refl, refl))
        λ snap1 w1 kept.
          let snap2 : DaySnapshot F D = record snap1 {
            breaker = check cfg.breaker snap1.breaker p.equity now;
          } in
          bind_any P (λ w0. ended (propose_all cfg p now as_of snap2 entries [] w0)) _ w1
            λ pending_ps w2.
              bind_any P
                (λ w0.
                  await_decisions (out.fuel w0) out.cancel_first cfg.poll_interval pending_ps w0)
                _ w2
                λ approved_ps w3. submit_all-IsUnsettled snap.broker cfg approved_ps snap2 w3 kept
    where
      bind_any :
          {A B : Type 0} (P : B → World F D → Type 0) (m : M F D A) (k : A → M F D B)
          (w0 : World F D)
          → ((a : A) (w' : World F D) → After P (k a w'))
          → After P ((m >>= k) w0)
      bind_any P m k w0 h =
          bind-After (λ a w'. m w0 ≡ goes a w') P m k w0 (self-After (m w0)) (λ a w' e. h a w')
