-- ===== src/Backtest/Run/Days.antt =====
-- The days of a replay go forward: engine.go, Run; paper.go, Advance.
use crypto_swing_bot.Prelude.{
  ℕ, zero, suc, ◌+◌, ◌<◌, ◌≡◌, refl, inl, inr, ◌≢◌, Bool, true, false, ◌&&◌, Bool-cases, Option,
  none, some, List, [], ◌∷◌, leb, length, take, drop, All, arith, pos_part,
}
use mathlib.Core.Path.{subst}
use crypto_swing_bot.Float.{Float, Decimal, Convert}
use crypto_swing_bot.Domain.{Time, Signal, Portfolio}
use crypto_swing_bot.Broker.Book.{
  PaperBroker, ClosedTrade, new_paper_broker, costs_valid, Mode, is_other,
}
use crypto_swing_bot.Broker.Day.{advance, fill_pending, Filling, end_of_day}
use crypto_swing_bot.Broker.Day.Phases.{at_day}
use crypto_swing_bot.Broker.View.{portfolio}
use crypto_swing_bot.Backtest.Calendar.{build_calendar, build_date_index, build_series_and_universe}
use crypto_swing_bot.Backtest.Calendar.Order.{IsIncreasing, build_calendar-IsIncreasing}
use crypto_swing_bot.Backtest.Engine.{
  failed, and_then, or_failed, clock_went_back, evaluate_failed, BacktestConfig, Replay,
}
use crypto_swing_bot.Backtest.Run.{
  advanced, record_trades, observe, act_on, trade_day, input_of, replay_days, prime, run_on, run,
  created_broker, first_replay, is_empty, open_of,
}
use crypto_swing_bot.Backtest.Run.Clock.{
  IsOnTime, and_then-IsOnTime, or_panic-IsOnTime, IsAt, IsAhead, apply_all-IsAt, enter_all-IsAt,
}

module _ {F D : Type 0} where
  record_trades-broker :
      (trs : List (ClosedTrade F D)) (r : Replay F D) → (record_trades trs r).broker ≡ r.broker
  unfolding record_trades
  record_trades-broker [] r = refl
  record_trades-broker (tr ∷ trs) r = record_trades-broker trs _

module _ {F D : Type 0} ⦃f : Float F⦄ ⦃c : Convert F D⦄ where
  end_of_day-IsOnTime :
      (t : Time) (s : Option (Filling F D))
      → IsOnTime (λ b'. IsAt true t b') (advanced (end_of_day t s))
  end_of_day-IsOnTime t none = tt
  end_of_day-IsOnTime t (some s) = (refl, refl)

  advance-IsOnTime :
      (b : PaperBroker F D) (t : Time)
      → (b.started && leb t b.now) ≡ false
      → IsOnTime (λ b'. IsAt true t b') (advanced (advance b t))
  unfolding advance
  advance-IsOnTime b t h = rw h (end_of_day-IsOnTime t (fill_pending t (at_day b t)))

module _ {F D : Type 0} where
  IsAhead-first :
      (b : PaperBroker F D) (t : Time) (ts : List Time)
      → IsAhead b (t ∷ ts)
      → (b.started && leb t b.now) ≡ false
  IsAhead-first b t ts (inl new) = rw new refl
  IsAhead-first b t ts (inr behind) = ground (arith, behind.0)

  IsAt-IsAhead :
      (b : PaperBroker F D) (t : Time) (ts : List Time)
      → IsAt true t b
      → All (λ u. t < u) ts
      → IsAhead b ts
  IsAt-IsAhead b t ts h up = inr (rw h.1 up)

module _ {F D : Type 0} ⦃f : Float F⦄ ⦃d : Decimal D⦄ ⦃c : Convert F D⦄ where
  observe-broker : (t : Time) (b : PaperBroker F D) (r : Replay F D) → (observe t b r).broker ≡ b
  unfolding observe
  observe-broker t b r = record_trades-broker _ _

  act_on-IsOnTime :
      (st : Bool) (now : Time) (cfg : BacktestConfig F D) (t : Time) (p : Portfolio F D)
      (ss : List (Signal F)) (r : Replay F D)
      → IsAt st now r.broker
      → IsOnTime (λ r'. IsAt st now r'.broker) (act_on cfg t p ss r)
  unfolding act_on
  act_on-IsOnTime st now cfg t p ss r h =
      and_then-IsOnTime (λ r'. IsAt st now r'.broker) (λ r'. IsAt st now r'.broker) _ _
        (or_panic-IsOnTime (λ r'. IsAt st now r'.broker) _ (apply_all-IsAt st now cfg t p _ r h))
        λ r' h'.
          or_panic-IsOnTime (λ r''. IsAt st now r''.broker) _
            (enter_all-IsAt st now cfg t p (open_of r.breaker) _ r' h')

  answered-IsOnTime :
      (st : Bool) (now : Time) (cfg : BacktestConfig F D) (t : Time) (p : Portfolio F D)
      (r : Replay F D) (answer : Option (List (Signal F)))
      → IsAt st now r.broker
      → IsOnTime
          (λ r'. IsAt st now r'.broker)
          (and_then (or_failed evaluate_failed answer) λ ss. act_on cfg t p ss r)
  answered-IsOnTime st now cfg t p r none h = tt
  answered-IsOnTime st now cfg t p r (some ss) h = act_on-IsOnTime st now cfg t p ss r h

  trade_day-IsOnTime :
      (st : Bool) (now : Time) (cfg : BacktestConfig F D) (warmup : ℕ) (t : Time) (r : Replay F D)
      → IsAt st now r.broker
      → IsOnTime (λ r'. IsAt st now r'.broker) (trade_day cfg warmup t r)
  unfolding trade_day
  trade_day-IsOnTime st now cfg warmup t r h =
      let selected =
        build_series_and_universe cfg.candles (build_date_index cfg.candles) cfg.universe t
          warmup in
      elim (Bool-cases (is_empty selected.universe)) [
        | inl nobody ↦ rw nobody h
        | inr some_one ↦ rw some_one (
            answered-IsOnTime st now cfg t (portfolio r.broker) r
              (cfg.strategy.evaluate (input_of t selected (portfolio r.broker))) h)
      ]

  replay_days-IsOnTime :
      (cfg : BacktestConfig F D) (warmup : ℕ) (ts : List Time) (r : Replay F D)
      → IsIncreasing ts
      → IsAhead r.broker ts
      → IsOnTime (λ r'. Unit) (replay_days cfg warmup ts r)
  unfolding replay_days
  replay_days-IsOnTime cfg warmup [] r up ahead = tt
  replay_days-IsOnTime cfg warmup (t ∷ ts) r up ahead =
      and_then-IsOnTime (λ b. IsAt true t b) _ _ _
        (advance-IsOnTime r.broker t (IsAhead-first r.broker t ts ahead))
        λ b hb.
          and_then-IsOnTime (λ r'. IsAt true t r'.broker) _ _ _
            (trade_day-IsOnTime true t cfg warmup t (observe t b r) (rw (observe-broker t b r) hb))
            λ r' hr.
              replay_days-IsOnTime cfg warmup ts r' up.1 (IsAt-IsAhead r'.broker t ts hr up.0)

  -- The days that are left behind the warmup are ahead of the broker that it leaves.
  prime-IsOnTime :
      (n : ℕ) (ts : List Time) (b : PaperBroker F D)
      → IsIncreasing ts
      → IsAhead b ts
      → IsOnTime (λ b'. IsIncreasing (drop n ts) × IsAhead b' (drop n ts)) (prime (take n ts) b)
  unfolding prime
  prime-IsOnTime zero ts b up ahead = (up, ahead)
  prime-IsOnTime (suc n) [] b up ahead = (tt, inr tt)
  prime-IsOnTime (suc n) (t ∷ ts) b up ahead =
      and_then-IsOnTime (λ b'. IsAt true t b') _ _ _
        (advance-IsOnTime b t (IsAhead-first b t ts ahead))
        λ b' hb. prime-IsOnTime n ts b' up.1 (IsAt-IsAhead b' t ts hb up.0)

  created-IsOnTime :
      (mode : Mode) (cfg : BacktestConfig F D) (now : Time)
      → IsOnTime
          (λ b. b.started ≡ false)
          (created_broker {D = D}
            (new_paper_broker mode cfg.candles cfg.initial_cash cfg.costs now cfg.strategy.name))
  unfolding new_paper_broker
  created-IsOnTime mode cfg now = elim (Bool-cases (is_other mode)) [
    | inl unknown ↦ rw unknown tt
    | inr known ↦ elim (Bool-cases (costs_valid cfg.costs)) [
      | inr free ↦ rw (known, free) tt
      | inl paid ↦ elim (Bool-cases (f.le cfg.initial_cash (f.lit 0 0))) [
        | inl poor ↦ rw (known, paid, poor) tt
        | inr rich ↦ rw (known, paid, rich) refl
      ]
    ]
  ]

  run_on-IsOnTime :
      (cfg : BacktestConfig F D) (warmup : ℕ) (calendar : List Time)
      → IsIncreasing calendar
      → IsOnTime (λ r. Unit) (run_on cfg warmup calendar)
  unfolding run_on
  run_on-IsOnTime cfg warmup calendar up =
      and_then-IsOnTime (λ b. b.started ≡ false) _ _ _ (created-IsOnTime _ cfg _)
        λ b0 new.
          and_then-IsOnTime
            (λ b.
              IsIncreasing (drop (warmup + 1) calendar) × IsAhead b (drop (warmup + 1) calendar))
            (λ r. Unit) _ _ (prime-IsOnTime (warmup + 1) calendar b0 up (inl new))
            λ b left.
              and_then-IsOnTime (λ r. Unit) _ _ _
                (replay_days-IsOnTime cfg warmup _ (first_replay cfg b) left.0 left.1) λ r u. tt

  run-IsOnTime : (cfg : BacktestConfig F D) → IsOnTime (λ r. Unit) (run cfg)
  unfolding run
  run-IsOnTime cfg = elim (Bool-cases (is_empty cfg.candles)) [
    | inl nothing ↦ rw nothing tt
    | inr given ↦ elim (Bool-cases (costs_valid cfg.costs)) [
      | inr free ↦ rw (given, free) tt
      | inl paid ↦
          elim (Bool-cases
            (leb (length (build_calendar cfg.candles)) (pos_part cfg.strategy.warmup_bars + 1))) [
              | inl short ↦ rw (given, paid, short) tt
              | inr long ↦
                  rw (given, paid, long)
                    (run_on-IsOnTime cfg _ (build_calendar cfg.candles)
                      (build_calendar-IsIncreasing cfg.candles))
            ]
    ]
  ]

  -- Whatever the candles, the strategy and the gate do, a replay does not fail because a day was not
  -- after the one before it.
  pub run-clock : (cfg : BacktestConfig F D) → run cfg ≢ failed clock_went_back
  run-clock cfg h = subst (λ r. IsOnTime (λ a. Unit) r) h (run-IsOnTime cfg)
