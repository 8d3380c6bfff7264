-- ===== src/Engine/Daily.antt =====
-- internal/engine/daily.go: RunOnce and ResumePending, with candleDay, alreadyProcessed,
-- seriesAndUniverse, benchmarkCurves and notifyDailySummary.
pub mod InStep
pub mod Unsettled
pub mod Traded
pub mod Once
pub mod Halted
use crypto_swing_bot.Prelude.{
  ℕ, zero, suc, ◌-◌, ◌%◌, Bool, true, false, ◌&&◌, not, Option, none, some, List, [], ◌∷◌, ◌++◌,
  if◌then◌else◌, ltb, ◌==◌, keep,
}
use crypto_swing_bot.Prelude.Dict.{Dict, lookup}
use crypto_swing_bot.Float.{Float, Decimal, Convert}
use crypto_swing_bot.Domain.{Symbol, Time, Candle, Signal, Portfolio, exposure}
use crypto_swing_bot.Risk.Breaker.{day, check}
use crypto_swing_bot.Broker.Book.{PaperBroker, value_or}
use crypto_swing_bot.Broker.View.{portfolio}
use crypto_swing_bot.Notify.Approval.{pending, submitted}
use crypto_swing_bot.Strategy.{Input}
use crypto_swing_bot.Backtest.Calendar.{build_calendar, build_date_index, select_all, Selected}
use crypto_swing_bot.Backtest.Engine.{EquityPoint}
use crypto_swing_bot.Backtest.Run.{is_empty, is_entry, input_of}
use crypto_swing_bot.Backtest.Benchmark.{buy_and_hold_curve, top10_equal_weight_curve}
use crypto_swing_bot.Engine.World.{
  Proposal, EquitySnapshot, World, Step, goes, stops, panics, M, ◌>>=◌, pure, stop_with, or_panic,
  or_stop, modify, get, notify, EngineError, update_failed, verify_failed, verify_critical,
  daily_summary, update_error, verify_error, verify_critical_error, as_of_mismatch, universe_error,
  evaluate_error,
}
use crypto_swing_bot.Engine.After.{ended}
use crypto_swing_bot.Engine.Tables.{
  insert_equity_snapshot, list_equity_snapshots, list_by_status, update_or_stop,
}
use crypto_swing_bot.Engine.Resubmit.{EngineConfig}
use crypto_swing_bot.Engine.Rebuild.{
  DaySnapshot, Rebuilt, rebuilt, unbuilt, panic, reconstruct, last_day,
}
use crypto_swing_bot.Engine.Notices.{persist_breaker_state, notify_stop_triggers}
use crypto_swing_bot.Engine.Exits.{process_all}
use crypto_swing_bot.Engine.Entries.{propose_all, submit_all}
use crypto_swing_bot.Engine.Decisions.{await_decisions}
use crypto_swing_bot.Engine.Sync.{sync_trades, sync_proposal_fills}

-- What a day needs of its surroundings: the feed, which asks the exchange for new bars and counts the
-- critical findings in them, the universe of a day, and how long a wait may take.
pub record Surroundings (F D : Type 0) : Type 0 where
  pub update : Dict (List (Candle F)) → Option (Dict (List (Candle F)))
  pub critical_issues : Dict (List (Candle F)) → Option ℕ
  pub universe : Time → World F D → Option (List Symbol)
  pub cancel_first : ℕ → Bool
  pub fuel : World F D → ℕ

-- The day whose candle closed last.
unfoldable pub candle_day : Time → Time
candle_day now = now - now % day - day

module _ {F : Type 0} where
  -- The last row is not before the day.
  unfoldable pub already_processed : Time → List (EquitySnapshot F) → Bool
  already_processed as_of [] = false
  already_processed as_of (s ∷ []) = not (ltb s.ts as_of)
  already_processed as_of (s ∷ t ∷ rest) = already_processed as_of (t ∷ rest)

  -- `seriesAndUniverse`, with the index of the dates.
  unfoldable pub series_and_universe : Dict (List (Candle F)) → List Symbol → Time → Selected F
  series_and_universe candles candidates t =
      select_all candles (build_date_index candles) t 0 candidates
        (record { series = []; universe = [] })

  abbrev pub last_equity : List (EquityPoint F) → Option F
  last_equity [] = none
  last_equity (p ∷ []) = some p.equity
  last_equity (p ∷ q ∷ ps) = last_equity (q ∷ ps)

module _ {F D : Type 0} where
  abbrev pub of_rebuilt : {A : Type 0} → Rebuilt A → M F D A
  of_rebuilt (rebuilt a) w = goes a w
  of_rebuilt (unbuilt e) w = stops e w
  of_rebuilt panic w = panics

  abbrev pub updated_feed : Option (Dict (List (Candle F))) → M F D (Unit {0})
  updated_feed none w = stops update_error (notify update_failed w)
  updated_feed (some candles) w = goes tt (record w { candles = candles })

  abbrev pub verified : Option ℕ → M F D (Unit {0})
  verified none w = stops verify_error (notify verify_failed w)
  verified (some n) w =
      if n == 0 then goes tt w else stops (verify_critical_error n) (notify (verify_critical n) w)

  abbrev pub check_that : Bool → EngineError → M F D (Unit {0})
  check_that ok e w = if ok then goes tt w else stops e w

  -- The bookkeeping of `ResumePending`.
  unfoldable pub mark_submitted : Time → List (Proposal F D) → M F D (Unit {0})
  mark_submitted now [] = pure tt
  mark_submitted now (p ∷ ps) = do _ ← update_or_stop p.id submitted now 0; mark_submitted now ps

module _ {F D : Type 0} ⦃f : Float F⦄ ⦃d : Decimal D⦄ ⦃c : Convert F D⦄ where
  -- Steps 7 to 13 of a day, from the signals on; `p` is the portfolio that the day starts with.
  unfoldable pub act_on_signals :
      EngineConfig F D
      → Surroundings F D
      → Time
      → Time
      → Portfolio F D
      → List (Signal F)
      → DaySnapshot F D
      → M F D (DaySnapshot F D)
  act_on_signals cfg out now as_of p signals snap = do
    let exits = keep (λ s. not (is_entry s.kind)) signals
    let entries = keep (λ s. is_entry s.kind) signals
    snap1 ← λ w. ended (process_all cfg p now as_of exits snap w)
    let snap2 : DaySnapshot F D = record snap1 {
      breaker = check cfg.breaker snap1.breaker p.equity now;
    }
    pending_ps ← λ w. ended (propose_all cfg p now as_of snap2 entries [] w)
    approved_ps ← λ w. await_decisions (out.fuel w) out.cancel_first cfg.poll_interval pending_ps w
    λ w. ended (submit_all cfg approved_ps snap2 w)

  -- Step 14, `InsertEquitySnapshot` with the benchmarks, and step 15.
  unfoldable pub write_snapshot : EngineConfig F D → Time → DaySnapshot F D → M F D (Unit {0})
  write_snapshot cfg as_of snap w =
      let p = portfolio snap.broker in
      let calendar = build_calendar snap.broker.candles in
      let btc = value_or [] (lookup cfg.btc_symbol snap.broker.candles) in
      let row : EquitySnapshot F = record {
        ts = as_of;
        equity = p.equity;
        cash = p.cash;
        exposure_pct = exposure p;
        bench_btc = last_equity (buy_and_hold_curve btc calendar cfg.initial_cash cfg.costs);
        bench_top10 =
            last_equity
              (top10_equal_weight_curve snap.broker.candles calendar cfg.initial_cash cfg.costs);
      } in
      goes tt
        (notify daily_summary (record w { snapshots = insert_equity_snapshot row w.snapshots }))

  -- The rest of a day, for the account as it was reconstructed.
  unfoldable pub trade_day :
      EngineConfig F D → Surroundings F D → Time → Time → DaySnapshot F D → M F D (Unit {0})
  trade_day cfg out now as_of snap = do
    let p = portfolio snap.broker
    _ ←
        modify
          λ w. notify_stop_triggers snap.todays_closed_trades (persist_breaker_state snap.breaker w)
    symbols ← λ w. or_stop universe_error (out.universe as_of w) w
    signals ← or_stop evaluate_error (
        cfg.strategy.evaluate
          (input_of as_of (series_and_universe snap.broker.candles symbols as_of) p))
    snap' ← act_on_signals cfg out now as_of p signals snap
    _ ← modify (sync_trades (portfolio snap'.broker) snap'.broker.trades)
    _ ← sync_proposal_fills cfg snap'.broker
    write_snapshot cfg as_of snap'

  -- A day that was not processed yet.
  unfoldable pub run_day : EngineConfig F D → Surroundings F D → Time → Time → M F D (Unit {0})
  run_day cfg out now as_of = do
    _ ← λ w. updated_feed (out.update w.candles) w
    _ ← λ w. verified (out.critical_issues w.candles) w
    snap ← λ w. of_rebuilt (reconstruct cfg w) w
    _ ← check_that (last_day (build_calendar snap.broker.candles) == as_of) as_of_mismatch
    trade_day cfg out now as_of snap

  -- `RunOnce`
  unfoldable pub run_once : EngineConfig F D → Surroundings F D → M F D (Unit {0})
  run_once cfg out w =
      let as_of = candle_day w.now in
      if already_processed as_of (list_equity_snapshots w.snapshots)
      then goes tt w
      else run_day cfg out w.now as_of w

  -- `ResumePending`
  unfoldable pub resume_pending : EngineConfig F D → Surroundings F D → M F D (Unit {0})
  resume_pending cfg out = do
    approved_ps ← λ w.
        await_decisions (out.fuel w) out.cancel_first cfg.poll_interval
          (list_by_status pending w.proposals) w
    snap ← λ w. of_rebuilt (reconstruct cfg w) w
    _ ← modify (sync_trades (portfolio snap.broker) snap.broker.trades)
    _ ← λ w. mark_submitted w.now approved_ps w
    sync_proposal_fills cfg snap.broker
