-- ===== src/Engine/Sync.antt =====
-- internal/engine/daily.go: syncTrades, tradeRows and syncProposalFills, which bring the tables up to
-- the account.
use crypto_swing_bot.Prelude.{
  ℕ, suc, Bool, true, false, Option, none, some, List, [], ◌∷◌, ◌++◌, if◌then◌else◌,
}
use crypto_swing_bot.Prelude.Dict.{Dict}
use crypto_swing_bot.Float.{Float}
use crypto_swing_bot.Domain.{Status, filled, Position, Portfolio}
use crypto_swing_bot.Broker.Book.{ClosedTrade, PaperBroker}
use crypto_swing_bot.Broker.Orders.{order_status}
use crypto_swing_bot.Notify.Approval.{approved, submitted, filled}
use crypto_swing_bot.Backtest.Engine.{OrderKind, entry_order, exit_order}
use crypto_swing_bot.Engine.World.{
  ProposalSide, long, exit, stop_update, Proposal, Trade, World, M, ◌>>=◌, pure,
}
use crypto_swing_bot.Engine.Tables.{stored, list_by_status, update_or_stop}
use crypto_swing_bot.Engine.Resubmit.{EngineConfig}

module _ {F D : Type 0} where
  -- The rows of the closed trades, from this number on, as they are read back.
  unfoldable pub closed_rows : ℕ → List (ClosedTrade F D) → List (Trade F D)
  closed_rows i [] = []
  closed_rows i (tr ∷ trs) =
      record {
        closed = some i;
        symbol = tr.symbol;
        strategy = tr.strategy;
        entry_time = stored tr.entry_time;
        entry_price = tr.entry_price;
        exit_time = stored tr.exit_time;
        exit_price = some tr.exit_price;
        qty = tr.qty;
        fees = tr.fees;
        pnl_quote = some tr.pnl_quote;
        pnl_pct = some tr.pnl_pct;
        exit_reason = some tr.exit_reason;
      }
      ∷ closed_rows (suc i) trs

module _ {F D : Type 0} ⦃f : Float F⦄ where
  open f use {lit}

  unfoldable pub open_rows : Dict (Position F D) → List (Trade F D)
  open_rows [] = []
  open_rows ((sym, p) ∷ rest) =
      record {
        closed = none;
        symbol = sym;
        strategy = p.strategy;
        entry_time = stored p.entry_time;
        entry_price = p.entry_price;
        exit_time = 0;
        exit_price = none;
        qty = p.qty;
        fees = lit 0 0;
        pnl_quote = none;
        pnl_pct = none;
        exit_reason = none;
      }
      ∷ open_rows rest

  -- `tradeRows`
  unfoldable pub trade_rows : Portfolio F D → List (ClosedTrade F D) → List (Trade F D)
  trade_rows p trades = closed_rows 0 trades ++ open_rows p.positions

  -- `syncTrades` with `ReplaceTrades`: the table holds these rows then, and no other.
  unfoldable pub sync_trades : Portfolio F D → List (ClosedTrade F D) → World F D → World F D
  sync_trades p trades w = record w { trades = trade_rows p trades }

-- The order of a row that can be filled; a stop has none.
abbrev pub fill_kind : ProposalSide → Option OrderKind
fill_kind long = some entry_order
fill_kind exit = some exit_order
fill_kind stop_update = none

abbrev pub is_filled_status : Option Status → Bool
is_filled_status (some Status.filled) = true
is_filled_status _ = false

module _ {F D : Type 0} where
  abbrev pub is_filled_order : EngineConfig F D → PaperBroker F D → ℕ → Option OrderKind → Bool
  is_filled_order cfg b id none = false
  is_filled_order cfg b id (some kind) =
      is_filled_status (order_status b (cfg.client_order_id id kind))

  -- The loop over the candidates.
  unfoldable pub fill_all :
      EngineConfig F D → PaperBroker F D → List (Proposal F D) → M F D (Unit {0})
  fill_all cfg b [] = pure tt
  fill_all cfg b (p ∷ ps) =
      if is_filled_order cfg b p.id (fill_kind p.side)
      then (do _ ← update_or_stop p.id filled 0 0; fill_all cfg b ps)
      else fill_all cfg b ps

  -- `syncProposalFills`
  unfoldable pub sync_proposal_fills : EngineConfig F D → PaperBroker F D → M F D (Unit {0})
  sync_proposal_fills cfg b w =
      fill_all cfg b (list_by_status approved w.proposals ++ list_by_status submitted w.proposals) w
