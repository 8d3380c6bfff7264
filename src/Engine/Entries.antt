-- ===== src/Engine/Entries.antt =====
-- internal/engine/daily.go: proposeEntry and submitApproved, and their loops.
pub mod Quiet
pub mod Unsettled
use crypto_swing_bot.Prelude.{
  ℕ, suc, ◌+◌, Bool, true, false, ◌&&◌, not, Option, none, some, List, [], ◌∷◌, ◌++◌, if◌then◌else◌,
  ◌>>=◌,
}
use crypto_swing_bot.Prelude.Dict.{Dict, lookup}
use crypto_swing_bot.Float.{Float, Decimal, Convert}
use crypto_swing_bot.Domain.{
  Symbol, Time, Signal, SignalKind, enter, exit, stop_update, Market, Position, Portfolio, Side,
  sell, OrderType, market, stop_market,
}
use crypto_swing_bot.Risk.Sizer.{SizeResult}
use crypto_swing_bot.Risk.Gate.{Decision, GateInput, evaluate}
use crypto_swing_bot.Risk.Breaker.{Breaker, State, OrderError, record_order_error, prune}
use crypto_swing_bot.Broker.Book.{ClosedTrade, ExitReason, signal, stop, PaperBroker, value_or}
use crypto_swing_bot.Broker.Orders.{SubmitError, Submitted, placed, refused, submit}
use crypto_swing_bot.Notify.Approval.{ProposalStatus, pending, rejected, submitted, failed}
use crypto_swing_bot.Backtest.Engine.{exit_order, stop_order, no_market, request}
use crypto_swing_bot.Engine.World.{
  ProposalSide, long, exit, stop_update, Proposal, Note, breaker_tripped, stop_triggered,
  position_closed, order_failed, proposal_unsent, proposed, World, notify,
}
use crypto_swing_bot.Engine.Tables.{insert_proposal, try_update}
use crypto_swing_bot.Engine.Resubmit.{EngineConfig, Resubmitted, resubmit}
use crypto_swing_bot.Engine.Rebuild.{DaySnapshot}
use crypto_swing_bot.Engine.Notices.{note_order_error, take_id}

-- What `proposeEntry` returns.
pub record Proposed (F D : Type 0) : Type 0 where
  pub world : World F D
  pub row : Option (Proposal F D)
  pub fails : Bool

module _ {F D : Type 0} ⦃f : Float F⦄ ⦃d : Decimal D⦄ ⦃c : Convert F D⦄ where
  open f use {lit, le}
  open d use {d_zero}
  open c use {new_from_float}

  -- The row of an entry, by its fate.
  abbrev pub entry_row :
      EngineConfig F D
      → ℕ
      → Signal F
      → D
      → F
      → ProposalStatus
      → Time
      → Time
      → Time
      → Time
      → Proposal F D
  entry_row cfg id s qty risk_amount status now as_of expires_at decided_at = record {
    id = id;
    created_at = now;
    as_of = as_of;
    symbol = s.symbol;
    side = long;
    strategy = cfg.strategy.name;
    score = some s.score;
    ref_price = s.ref_price;
    stop_price = some s.stop_price;
    qty = qty;
    risk_amount = risk_amount;
    status = status;
    expires_at = expires_at;
    decided_at = decided_at;
    order_id = 0;
  }

  abbrev pub qty_of : Option (SizeResult F D) → D
  qty_of none = d_zero
  qty_of (some r) = r.qty

  abbrev pub risk_of : Option (SizeResult F D) → F
  risk_of none = lit 0 0
  risk_of (some r) = r.risk_amount

  -- The message about a row that is in the table.
  abbrev pub sent_row :
      EngineConfig F D → Proposal F D → World F D → Option (World F D) → Proposed F D
  sent_row cfg row w none = record { world = w; row = none; fails = true }
  sent_row cfg row w (some w') =
      if cfg.sends row.id
      then record { world = notify (proposed row.id) w'; row = some row; fails = false }
      else record { world = w'; row = some row; fails = true }

  -- What `proposeEntry` does with the gate's decision.
  abbrev pub propose_decided :
      EngineConfig F D → ℕ → Signal F → Time → Time → World F D → Decision F D → Proposed F D
  propose_decided cfg id s now as_of w decision =
      let rejected_row = entry_row cfg id s d_zero (lit 0 0) rejected now as_of now now in
      let row =
        entry_row cfg id s (qty_of decision.size) (risk_of decision.size) pending now as_of
          (now + cfg.approval_ttl) 0 in
      if decision.approved
      then sent_row cfg row w (insert_proposal row w)
      else record { world = value_or w (insert_proposal rejected_row w); row = none; fails = false }

  -- `proposeEntry`; `none` is the panic of the sizer.
  unfoldable pub propose_entry :
      EngineConfig F D
      → Signal F
      → Portfolio F D
      → Time
      → Time
      → DaySnapshot F D
      → World F D
      → Option (Proposed F D)
  propose_entry cfg s p now as_of snap w = do
    decision ← evaluate cfg.risk cfg.risk s (record {
      portfolio = p;
      market = value_or no_market (lookup s.symbol w.markets);
      now = now;
      last_exit_at = value_or 0 (lookup s.symbol snap.last_exit_at);
      breaker_open = snap.breaker.state.is_open;
    })
    some (propose_decided cfg (cfg.new_proposal_id w.next_id) s now as_of (take_id w) decision)

  abbrev pub rows_of : Option (Proposal F D) → List (Proposal F D)
  rows_of none = []
  rows_of (some p) = p ∷ []

  abbrev pub report_unsent : Symbol → Proposed F D → World F D
  report_unsent sym r = if r.fails then notify (proposal_unsent sym) r.world else r.world

  -- The loop over the entries, which collects what there is to wait for.
  unfoldable pub propose_all :
      EngineConfig F D
      → Portfolio F D
      → Time
      → Time
      → DaySnapshot F D
      → List (Signal F)
      → List (Proposal F D)
      → World F D
      → Option (List (Proposal F D) × World F D)
  propose_all cfg p now as_of snap [] pending_ps w = some (pending_ps, w)
  propose_all cfg p now as_of snap (s ∷ rest) pending_ps w = do
    r ← propose_entry cfg s p now as_of snap w
    propose_all cfg p now as_of snap rest (pending_ps ++ rows_of r.row) (report_unsent s.symbol r)

  abbrev pub settle_submitted :
      Proposal F D
      → Time
      → DaySnapshot F D
      → World F D
      → Resubmitted F D
      → DaySnapshot F D × World F D
  settle_submitted p now snap w r = elim r.error [
    | none ↦ (record snap { broker = r.broker }, try_update p.id submitted now r.order_id w)
    | some e ↦
        note_order_error now (record snap { broker = r.broker })
          (notify (order_failed p.symbol) (try_update p.id failed now 0 w))
  ]

  -- `submitApproved`
  unfoldable pub submit_approved :
      EngineConfig F D
      → DaySnapshot F D
      → Proposal F D
      → World F D
      → Option (DaySnapshot F D × World F D)
  submit_approved cfg snap p w = do
    r ← resubmit cfg snap.broker p
    some (settle_submitted p w.now snap w r)

  -- The loop over what was approved.
  unfoldable pub submit_all :
      EngineConfig F D
      → List (Proposal F D)
      → DaySnapshot F D
      → World F D
      → Option (DaySnapshot F D × World F D)
  submit_all cfg [] snap w = some (snap, w)
  submit_all cfg (p ∷ ps) snap w = do s ← submit_approved cfg snap p w; submit_all cfg ps s.0 s.1
