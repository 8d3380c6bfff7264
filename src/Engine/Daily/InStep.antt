-- ===== src/Engine/Daily/InStep.antt =====
-- internal/engine/daily.go, RunOnce: what a processed day leaves in the tables.
use crypto_swing_bot.Prelude.{
  ℕ, ◌≡◌, refl, ◌∙◌, inl, inr, true, Bool-cases, Option-cases, some, List, [], ◌∷◌, ==-refl, ◌++◌,
  arith,
}
use crypto_swing_bot.Prelude.Dict.{Dict, lookup, lookup-insert}
use crypto_swing_bot.Float.{Float, Decimal, Convert}
use crypto_swing_bot.Domain.{Time, exposure}
use crypto_swing_bot.Broker.Book.{PaperBroker, value_or}
use crypto_swing_bot.Broker.View.{portfolio}
use crypto_swing_bot.Notify.Approval.{ProposalStatus, approved, submitted, filled}
use crypto_swing_bot.Engine.World.{Proposal, EquitySnapshot, Trade, World}
use crypto_swing_bot.Backtest.Calendar.{build_calendar}
use crypto_swing_bot.Backtest.Benchmark.{buy_and_hold_curve, top10_equal_weight_curve}
use crypto_swing_bot.Engine.After.{After, bind-After}
use crypto_swing_bot.Engine.Tables.{
  list_by_status, stored, insert_equity_snapshot, update_proposal_status, update_or_stop,
}
use crypto_swing_bot.Engine.Tables.Latest.{is_from_any, last_is_from, insert-is_from_any}
use crypto_swing_bot.Engine.Resubmit.{EngineConfig}
use crypto_swing_bot.Engine.Rebuild.{DaySnapshot}
use crypto_swing_bot.Engine.Sync.{
  trade_rows, fill_all, is_filled_order, fill_kind, sync_proposal_fills,
}
use crypto_swing_bot.Engine.Daily.{candle_day, last_equity, already_processed, write_snapshot}

pub stored-candle_day : (now : Time) → stored (candle_day now) ≡ candle_day now
unfolding candle_day
stored-candle_day now = omega arith

module _ {F : Type 0} where
  pub already_processed-last :
      (as_of : Time) (xs : List (EquitySnapshot F))
      → already_processed as_of xs ≡ last_is_from as_of xs
  unfolding already_processed
  already_processed-last as_of [] = refl
  already_processed-last as_of (x ∷ []) = refl
  already_processed-last as_of (x ∷ y ∷ xs) = already_processed-last as_of (y ∷ xs)

  insert_equity_snapshot-row :
      (row : EquitySnapshot F) (rows : Dict (EquitySnapshot F))
      → stored row.ts ≡ row.ts
      → ((r : EquitySnapshot F) × (lookup row.ts (insert_equity_snapshot row rows) ≡ some r)
          × (r.equity ≡ row.equity)
          × (r.cash ≡ row.cash)
          × (r.exposure_pct ≡ row.exposure_pct))
        × (is_from_any row.ts (insert_equity_snapshot row rows) ≡ true)
  unfolding insert_equity_snapshot
  insert_equity_snapshot-row row rows e =
      let kept = record row { ts = stored row.ts } in
      (
        (
          kept,
          lookup-insert row.ts (stored row.ts) kept rows ∙ rw (e, ==-refl row.ts) refl,
          refl,
          refl,
          refl,
        ),
        insert-is_from_any row.ts (stored row.ts) kept rows (rw e (ground arith)),
      )

module _ {F D : Type 0} where
  update_or_stop-trades :
      (rows : List (Trade F D)) (id : ℕ) (s : ProposalStatus) (t : Time) (o : ℕ) (w : World F D)
      → w.trades ≡ rows
      → After (λ u w'. w'.trades ≡ rows) (update_or_stop id s t o w)
  unfolding update_proposal_status
  update_or_stop-trades rows id s t o w h = elim (Option-cases (lookup id w.proposals)) [
    | inl gone ↦ rw (update_or_stop, gone) tt
    | inr (p, there) ↦ rw (update_or_stop, there) h
  ]

  fill_all-trades :
      (rows : List (Trade F D)) (cfg : EngineConfig F D) (b : PaperBroker F D)
      (ps : List (Proposal F D)) (w : World F D)
      → w.trades ≡ rows
      → After (λ u w'. w'.trades ≡ rows) (fill_all cfg b ps w)
  unfolding fill_all
  fill_all-trades rows cfg b [] w h = h
  fill_all-trades rows cfg b (p ∷ ps) w h =
      elim (Bool-cases (is_filled_order cfg b p.id (fill_kind p.side))) [
        | inl is_so ↦ rw is_so (
            bind-After (λ u w'. w'.trades ≡ rows) (λ u w'. w'.trades ≡ rows)
              (update_or_stop p.id filled 0 0) (λ u. fill_all cfg b ps) w
              (update_or_stop-trades rows p.id filled 0 0 w h)
              (λ u w' h'. fill_all-trades rows cfg b ps w' h'))
        | inr is_not ↦ rw is_not (fill_all-trades rows cfg b ps w h)
      ]

  pub fills-trades :
      (rows : List (Trade F D)) (cfg : EngineConfig F D) (b : PaperBroker F D) (w : World F D)
      → w.trades ≡ rows
      → After (λ u w'. w'.trades ≡ rows) (sync_proposal_fills cfg b w)
  unfolding sync_proposal_fills
  fills-trades rows cfg b w h =
      fill_all-trades rows cfg b
        (list_by_status approved w.proposals ++ list_by_status submitted w.proposals) w h

module _ {F D : Type 0} ⦃f : Float F⦄ ⦃d : Decimal D⦄ ⦃c : Convert F D⦄ where
  -- The tables of a day describe the account of the broker: its open and its closed trades, and the
  -- equity, the cash and the exposure of the day's row.
  abbrev pub IsInStep : Time → PaperBroker F D → World F D → Type 0
  IsInStep as_of b w =
      (w.trades ≡ trade_rows (portfolio b) b.trades)
      × ((row : EquitySnapshot F) × (lookup as_of w.snapshots ≡ some row)
          × (row.equity ≡ (portfolio b).equity)
          × (row.cash ≡ (portfolio b).cash)
          × (row.exposure_pct ≡ exposure (portfolio b)))
      × (is_from_any as_of w.snapshots ≡ true)

  pub write_snapshot-IsInStep :
      (cfg : EngineConfig F D) (as_of : Time) (snap : DaySnapshot F D) (w : World F D)
      → stored as_of ≡ as_of
      → w.trades ≡ trade_rows (portfolio snap.broker) snap.broker.trades
      → After (λ u w'. IsInStep as_of snap.broker w') (write_snapshot cfg as_of snap w)
  unfolding write_snapshot
  write_snapshot-IsInStep cfg as_of snap w e t =
      let p = portfolio snap.broker in
      let calendar = build_calendar snap.broker.candles in
      let btc = value_or [] (lookup cfg.btc_symbol snap.broker.candles) in
      let row : EquitySnapshot F = record {
        ts = as_of;
        equity = p.equity;
        cash = p.cash;
        exposure_pct = exposure p;
        bench_btc = last_equity (buy_and_hold_curve btc calendar cfg.initial_cash cfg.costs);
        bench_top10 =
            last_equity
              (top10_equal_weight_curve snap.broker.candles calendar cfg.initial_cash cfg.costs);
      } in
      let found = insert_equity_snapshot-row row w.snapshots e in (t, found.0, found.1)
