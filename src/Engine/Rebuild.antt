-- ===== src/Engine/Rebuild.antt =====
-- internal/engine/daily.go: reconstruct and loadOrderErrors. The account of paper trading is computed
-- from the candles and the decided proposals, each time anew.
use crypto_swing_bot.Prelude.{ℕ, ◌+◌, Bool, true, false, Option, none, some, List, [], ◌∷◌, length}
use crypto_swing_bot.Prelude.Dict.{Dict, insert}
use crypto_swing_bot.Float.{Float, Decimal, Convert}
use crypto_swing_bot.Domain.{Time}
use crypto_swing_bot.Risk.Breaker.{
  Breaker, OrderError, record_order_error, record_trade, check, prune, new_breaker,
}
use crypto_swing_bot.Broker.Book.{
  ClosedTrade, PaperBroker, paper, Created, created, refused, new_paper_broker,
}
use crypto_swing_bot.Broker.Day.{Advanced, settled, non_increasing, panicked, advance}
use crypto_swing_bot.Broker.View.{portfolio, closed_trades_since}
use crypto_swing_bot.Backtest.Calendar.{build_calendar}
use crypto_swing_bot.Backtest.Run.{is_empty}
use crypto_swing_bot.Engine.World.{
  Proposal, World, EngineError, no_markets, no_candles, clock_went_back, broker_error,
}
use crypto_swing_bot.Engine.Resubmit.{EngineConfig, load_decided, decided_on, resubmit_all}

-- `daySnapshot`, without what is in the world anyway.
pub record DaySnapshot (F D : Type 0) : Type 0 where
  pub broker : PaperBroker F D
  pub breaker : Breaker F
  pub last_exit_at : Dict Time
  pub trades_seen : ℕ
  pub order_errors : List OrderError
  pub todays_closed_trades : List (ClosedTrade F D)

-- What a reconstruction comes to.
pub data Rebuilt (A : Type 0) : Type 0 where
  rebuilt : A → Rebuilt A
  unbuilt : EngineError → Rebuilt A
  panic : Rebuilt A

abbrev pub and_then : {A B : Type 0} → Rebuilt A → (A → Rebuilt B) → Rebuilt B
and_then (rebuilt a) k = k a
and_then (unbuilt e) k = unbuilt e
and_then panic k = panic

abbrev pub or_panic : {A : Type 0} → Option A → Rebuilt A
or_panic none = panic
or_panic (some a) = rebuilt a

module _ {F D : Type 0} where
  abbrev pub advanced : Advanced F D → Rebuilt (PaperBroker F D)
  advanced (settled b) = rebuilt b
  advanced non_increasing = unbuilt clock_went_back
  advanced panicked = panic

  abbrev pub created_broker : Created F D → Rebuilt (PaperBroker F D)
  created_broker (created b) = rebuilt b
  created_broker (refused e) = unbuilt (broker_error e)

module _ {F : Type 0} where
  unfoldable pub record_errors : List OrderError → Breaker F → Breaker F
  record_errors [] b = b
  record_errors (e ∷ es) b = record_errors es (record_order_error b e)

module _ {F D : Type 0} where
  -- The loop over the trades that a day closed.
  unfoldable pub record_closed : List (ClosedTrade F D) → DaySnapshot F D → DaySnapshot F D
  record_closed [] s = s
  record_closed (tr ∷ trs) s = record_closed trs (record s {
    last_exit_at = insert tr.symbol tr.exit_time s.last_exit_at;
    breaker = record_trade s.breaker (record { closed_at = tr.exit_time; pnl = tr.pnl_quote });
  })

module _ {F D : Type 0} ⦃f : Float F⦄ ⦃d : Decimal D⦄ ⦃c : Convert F D⦄ where
  -- The rest of a day of the replay, behind the resubmitted orders.
  unfoldable pub close_day :
      EngineConfig F D → Time → PaperBroker F D → DaySnapshot F D → DaySnapshot F D
  close_day cfg day b s =
      let new_trades = closed_trades_since b s.trades_seen in
      let s' = record_closed new_trades s in
      record s' {
        broker = b;
        trades_seen = s.trades_seen + length new_trades;
        breaker = check cfg.breaker s'.breaker (portfolio b).equity day;
        todays_closed_trades = new_trades;
      }

  -- The loop over the calendar.
  unfoldable pub replay_days :
      EngineConfig F D
      → List (Proposal F D)
      → List Time
      → DaySnapshot F D
      → Rebuilt (DaySnapshot F D)
  replay_days cfg decided [] s = rebuilt s
  replay_days cfg decided (day ∷ days) s = and_then (advanced (advance s.broker day)) λ b.
      and_then (or_panic (resubmit_all cfg (decided_on day decided) b))
        λ b'. replay_days cfg decided days (close_day cfg day b' s)

  abbrev pub first_snapshot : List OrderError → PaperBroker F D → DaySnapshot F D
  first_snapshot errors b = record {
    broker = b;
    breaker = record_errors errors new_breaker;
    last_exit_at = [];
    trades_seen = 0;
    order_errors = errors;
    todays_closed_trades = [];
  }

  abbrev pub rebuild_on : EngineConfig F D → World F D → List Time → Rebuilt (DaySnapshot F D)
  rebuild_on cfg w [] = unbuilt no_candles
  rebuild_on cfg w (day ∷ days) =
      and_then
        (created_broker
          (new_paper_broker paper w.candles cfg.initial_cash cfg.costs day cfg.strategy.name))
        λ b.
          replay_days cfg (load_decided w.proposals) (day ∷ days)
            (first_snapshot (prune w.now w.order_errors) b)

  abbrev pub rebuild_from : Bool → EngineConfig F D → World F D → Rebuilt (DaySnapshot F D)
  rebuild_from true cfg w = unbuilt no_markets
  rebuild_from false cfg w = rebuild_on cfg w (build_calendar w.candles)

  -- `reconstruct`; a store with no candles has an empty calendar.
  unfoldable pub reconstruct : EngineConfig F D → World F D → Rebuilt (DaySnapshot F D)
  reconstruct cfg w = rebuild_from (is_empty w.markets) cfg w

-- The last day of the calendar, `asOf`.
abbrev pub last_day : List Time → Time
last_day [] = 0
last_day (t ∷ []) = t
last_day (t ∷ u ∷ ts) = last_day (u ∷ ts)
