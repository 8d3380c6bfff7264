-- ===== src/Engine/Daily/Traded.antt =====
-- internal/engine/daily.go, RunOnce: what a day does with the account that it reconstructs.
use crypto_swing_bot.Prelude.{
  ℕ, ◌≡◌, refl, ap, inl, inr, Bool-cases, Option, none, some, List, ◌==◌, arith,
}
use crypto_swing_bot.Prelude.Dict.{Dict}
use crypto_swing_bot.Float.{Float, Decimal, Convert}
use crypto_swing_bot.Domain.{Symbol, Time, Candle, Signal}
use crypto_swing_bot.Broker.View.{portfolio}
use crypto_swing_bot.Backtest.Calendar.{build_calendar}
use crypto_swing_bot.Backtest.Run.{input_of}
use crypto_swing_bot.Engine.World.{
  World, EngineError, goes, or_stop, universe_error, evaluate_error, as_of_mismatch,
}
use crypto_swing_bot.Engine.Notices.{persist_breaker_state, notify_stop_triggers}
use crypto_swing_bot.Engine.After.{
  and-After, After, bind-After, bind-settles, bind-sets, weaken-After,
}
use crypto_swing_bot.Engine.Tables.{stored}
use crypto_swing_bot.Engine.Resubmit.{EngineConfig}
use crypto_swing_bot.Engine.Rebuild.{
  DaySnapshot, Rebuilt, rebuilt, unbuilt, panic, reconstruct, last_day,
}
use crypto_swing_bot.Engine.Sync.{trade_rows, sync_trades, sync_proposal_fills}
use crypto_swing_bot.Engine.Daily.{
  Surroundings, act_on_signals, series_and_universe, updated_feed, verified, of_rebuilt, check_that,
  write_snapshot, trade_day, run_day,
}
use crypto_swing_bot.Broker.Orders.Unsettled.{IsUnsettled}
use crypto_swing_bot.Engine.Daily.Unsettled.{act_on_signals-IsUnsettled}
use crypto_swing_bot.Engine.Daily.InStep.{IsInStep, fills-trades, write_snapshot-IsInStep}

module _ {F D : Type 0} where
  or_stop-settles :
      {A : Type 0} (e : EngineError) (o : Option A) (w : World F D)
      → After (λ a w'. (o ≡ some a) × (w' ≡ w)) (or_stop e o w)
  or_stop-settles e none w = tt
  or_stop-settles e (some a) w = (refl, refl)

  of_rebuilt-settles :
      {A : Type 0} (r : Rebuilt A) (w : World F D)
      → After (λ a w'. (r ≡ rebuilt a) × (w' ≡ w)) (of_rebuilt r w)
  of_rebuilt-settles (rebuilt a) w = (refl, refl)
  of_rebuilt-settles (unbuilt e) w = tt
  of_rebuilt-settles panic w = tt

  updated_feed-sets :
      (o : Option (Dict (List (Candle F)))) (w : World F D)
      → After
          (λ u w'.
            (candles : Dict (List (Candle F))) × (o ≡ some candles)
            × (w' ≡ record w { candles = candles }))
          (updated_feed o w)
  updated_feed-sets none w = tt
  updated_feed-sets (some candles) w = (candles, refl, refl)

  verified-settles :
      (o : Option ℕ) (w : World F D) → After (λ u w'. (o ≡ some 0) × (w' ≡ w)) (verified o w)
  verified-settles none w = tt
  verified-settles (some n) w = elim (Bool-cases (n == 0)) [
    | inl zero_issues ↦ rw zero_issues (ap some (ground (arith, zero_issues)), refl)
    | inr issues ↦ rw issues tt
  ]

  check_that-settles :
      (s t : Time) (e : EngineError) (w : World F D)
      → After (λ u w'. (s ≡ t) × (w' ≡ w)) (check_that (s == t) e w)
  check_that-settles s t e w = elim (Bool-cases (s == t)) [
    | inl same ↦ rw same (ground (arith, same), refl)
    | inr other ↦ rw other tt
  ]

module _ {F D : Type 0} ⦃f : Float F⦄ ⦃d : Decimal D⦄ ⦃c : Convert F D⦄ where
  -- The day trades for the account of a snapshot: the breaker's table is written and the stops are
  -- reported, the strategy is asked about the universe of the day, acting on its signals leads to an
  -- account without settling anything, and the tables that are left at the end are of that account.
  abbrev pub IsTraded :
      EngineConfig F D
      → Surroundings F D
      → Time
      → Time
      → DaySnapshot F D
      → World F D
      → World F D
      → Type 0
  IsTraded cfg out now as_of snap w w' =
      (symbols : List Symbol) × (signals : List (Signal F)) × (snap' : DaySnapshot F D)
      × (acted : World F D) × (out.universe as_of
            (notify_stop_triggers snap.todays_closed_trades (persist_breaker_state snap.breaker w))
          ≡ some symbols)
      × (cfg.strategy.evaluate (
            input_of as_of (series_and_universe snap.broker.candles symbols as_of)
              (portfolio snap.broker))
          ≡ some signals)
      × (act_on_signals cfg out now as_of (portfolio snap.broker) signals snap
            (notify_stop_triggers snap.todays_closed_trades (persist_breaker_state snap.breaker w))
          ≡ goes snap' acted)
      × IsUnsettled snap.broker snap'.broker
      × IsInStep as_of snap'.broker w'

  trade_day-IsTraded :
      (cfg : EngineConfig F D) (out : Surroundings F D) (now as_of : Time) (snap : DaySnapshot F D)
      (w : World F D)
      → stored as_of ≡ as_of
      → After (λ u w'. IsTraded cfg out now as_of snap w w') (trade_day cfg out now as_of snap w)
  unfolding trade_day sync_trades
  trade_day-IsTraded cfg out now as_of snap w e =
      let P : Unit {0} → World F D → Type 0 = λ u w'. IsTraded cfg out now as_of snap w w' in
      let p = portfolio snap.broker in
      let w1 =
        notify_stop_triggers snap.todays_closed_trades (persist_breaker_state snap.breaker w) in
      bind-settles (λ symbols. out.universe as_of w1 ≡ some symbols) P
        (λ w0. or_stop universe_error (out.universe as_of w0) w0) _ w1 w1
        (or_stop-settles universe_error (out.universe as_of w1) w1)
        λ symbols at_symbols.
          let asked =
            cfg.strategy.evaluate
              (input_of as_of (series_and_universe snap.broker.candles symbols as_of) p) in
          bind-settles (λ signals. asked ≡ some signals) P (or_stop evaluate_error asked) _ w1 w1
            (or_stop-settles evaluate_error asked w1)
            λ signals at_signals.
              bind-After
                (λ snap' w2.
                  (act_on_signals cfg out now as_of p signals snap w1 ≡ goes snap' w2)
                  × IsUnsettled snap.broker snap'.broker)
                P (act_on_signals cfg out now as_of p signals snap) _ w1
                (and-After (λ snap' w2. IsUnsettled snap.broker snap'.broker)
                  (act_on_signals cfg out now as_of p signals snap w1)
                  (act_on_signals-IsUnsettled cfg out now as_of p signals snap w1))
                λ snap' w2 at_acted.
                  let rows = trade_rows (portfolio snap'.broker) snap'.broker.trades in
                  let synced = sync_trades (portfolio snap'.broker) snap'.broker.trades w2 in
                  bind-After (λ u w'. w'.trades ≡ rows) P (sync_proposal_fills cfg snap'.broker)
                    (λ u. write_snapshot cfg as_of snap') synced
                    (fills-trades rows cfg snap'.broker synced refl)
                    (λ u w' h.
                      weaken-After (λ v w''. IsInStep as_of snap'.broker w'') P
                        (write_snapshot cfg as_of snap' w')
                        (write_snapshot-IsInStep cfg as_of snap' w' e h)
                        (λ v w'' q. (
                          symbols, signals, snap', w2, at_symbols, at_signals, at_acted.0,
                          at_acted.1, q,
                        )))

  -- The cycle of a day runs to its end: the feed gives candles without a critical finding, the account
  -- that is reconstructed from them and from the tables has come up to the day, and the day trades for
  -- it.
  abbrev pub IsProcessed :
      EngineConfig F D → Surroundings F D → Time → Time → World F D → World F D → Type 0
  IsProcessed cfg out now as_of w w' =
      (candles : Dict (List (Candle F))) × (snap : DaySnapshot F D) × (out.update w.candles
        ≡ some candles)
      × (out.critical_issues candles ≡ some 0)
      × (reconstruct cfg (record w { candles = candles }) ≡ rebuilt snap)
      × (last_day (build_calendar snap.broker.candles) ≡ as_of)
      × IsTraded cfg out now as_of snap (record w { candles = candles }) w'

  pub run_day-IsProcessed :
      (cfg : EngineConfig F D) (out : Surroundings F D) (now as_of : Time) (w : World F D)
      → stored as_of ≡ as_of
      → After (λ u w'. IsProcessed cfg out now as_of w w') (run_day cfg out now as_of w)
  unfolding run_day
  run_day-IsProcessed cfg out now as_of w e =
      let P : Unit {0} → World F D → Type 0 = λ u w'. IsProcessed cfg out now as_of w w' in
      bind-sets (λ candles. out.update w.candles ≡ some candles)
        (λ candles. record w { candles = candles }) P
        (λ w0. updated_feed (out.update w0.candles) w0) _ w
        (updated_feed-sets (out.update w.candles) w)
        λ u candles at_candles.
          let w1 : World F D = record w { candles = candles } in
          bind-settles (λ u2. out.critical_issues candles ≡ some 0) P
            (λ w0. verified (out.critical_issues w0.candles) w0) _ w1 w1
            (verified-settles (out.critical_issues candles) w1)
            λ u2 at_issues.
              bind-settles (λ snap. reconstruct cfg w1 ≡ rebuilt snap) P
                (λ w0. of_rebuilt (reconstruct cfg w0) w0) _ w1 w1
                (of_rebuilt-settles (reconstruct cfg w1) w1)
                λ snap at_snap.
                  let last = last_day (build_calendar snap.broker.candles) in
                  bind-settles (λ u3. last ≡ as_of) P (check_that (last == as_of) as_of_mismatch) _
                    w1 w1 (check_that-settles last as_of as_of_mismatch w1)
                    λ u3 at_last.
                      weaken-After (λ v w'. IsTraded cfg out now as_of snap w1 w') P
                        (trade_day cfg out now as_of snap w1)
                        (trade_day-IsTraded cfg out now as_of snap w1 e)
                        (λ v w' q. (candles, snap, at_candles, at_issues, at_snap, at_last, q))
