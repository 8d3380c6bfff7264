-- ===== src/Engine/Exits.antt =====
-- internal/engine/daily.go: processExitOrStop and the loop over the exits and stops of a day.
pub mod Sells
use crypto_swing_bot.Prelude.{
  ℕ, Bool, true, false, Option, none, some, List, [], ◌∷◌, if◌then◌else◌, ◌>>=◌,
}
use crypto_swing_bot.Prelude.Dict.{lookup}
use crypto_swing_bot.Float.{Float, Decimal, Convert}
use crypto_swing_bot.Domain.{
  Symbol, Time, Signal, SignalKind, enter, exit, stop_update, Position, Portfolio, sell, market,
  stop_market,
}
use crypto_swing_bot.Broker.Book.{PaperBroker}
use crypto_swing_bot.Broker.Orders.{Submitted, placed, refused, submit}
use crypto_swing_bot.Notify.Approval.{submitted}
use crypto_swing_bot.Backtest.Engine.{exit_order, stop_order, request}
use crypto_swing_bot.Engine.World.{
  ProposalSide, exit, stop_update, Proposal, order_failed, World, notify,
}
use crypto_swing_bot.Engine.Tables.{insert_proposal}
use crypto_swing_bot.Engine.Resubmit.{EngineConfig}
use crypto_swing_bot.Engine.Rebuild.{DaySnapshot}
use crypto_swing_bot.Engine.Notices.{note_order_error, take_id}

-- The state of the day and the world behind an exit or a stop, and whether it returned an error.
pub record Acted (F D : Type 0) : Type 0 where
  pub snap : DaySnapshot F D
  pub world : World F D
  pub fails : Bool

module _ {F D : Type 0} where
  abbrev pub inserted : DaySnapshot F D → World F D → Option (World F D) → Acted F D
  inserted snap w none = record { snap = snap; world = w; fails = true }
  inserted snap w (some w') = record { snap = snap; world = w'; fails = false }

module _ {F D : Type 0} ⦃f : Float F⦄ ⦃d : Decimal D⦄ ⦃c : Convert F D⦄ where
  open f use {lit, le}
  open d use {d_zero}
  open c use {new_from_float}

  -- The row of an exit or of a stop, which nobody has to approve.
  abbrev pub exit_row :
      EngineConfig F D → ℕ → Signal F → ProposalSide → Option F → D → Time → Time → ℕ → Proposal F D
  exit_row cfg id s side stop_price qty now as_of order_id = record {
    id = id;
    created_at = now;
    as_of = as_of;
    symbol = s.symbol;
    side = side;
    strategy = cfg.strategy.name;
    score = none;
    ref_price = s.ref_price;
    stop_price = stop_price;
    qty = qty;
    risk_amount = lit 0 0;
    status = submitted;
    expires_at = as_of;
    decided_at = now;
    order_id = order_id;
  }

  -- What the broker's answer makes of an exit or a stop: `row` by the id of the order.
  abbrev pub with_order :
      (ℕ → Proposal F D) → DaySnapshot F D → World F D → PaperBroker F D × Submitted D → Acted F D
  with_order row snap w (b, refused e) = record {
    snap = record snap { broker = b };
    world = w;
    fails = true;
  }
  with_order row snap w (b, placed o) =
      inserted (record snap { broker = b }) w (insert_proposal (row o.id) w)

  abbrev pub exit_position :
      EngineConfig F D
      → ℕ
      → Signal F
      → Time
      → Time
      → DaySnapshot F D
      → World F D
      → Option (Position F D)
      → Acted F D
  exit_position cfg id s now as_of snap w none = record { snap = snap; world = w; fails = true }
  exit_position cfg id s now as_of snap w (some p) =
      with_order (exit_row cfg id s exit none p.qty now as_of) snap w (
        submit snap.broker
          (request (cfg.client_order_id id exit_order) s.symbol sell market p.qty d_zero))

  abbrev pub move_to_stop :
      EngineConfig F D
      → ℕ
      → Signal F
      → Time
      → Time
      → DaySnapshot F D
      → World F D
      → Option (Acted F D)
  move_to_stop cfg id s now as_of snap w = do
    price ← new_from_float s.stop_price
    some (
        with_order (exit_row cfg id s stop_update (some s.stop_price) d_zero now as_of) snap w (
          submit snap.broker
            (request (cfg.client_order_id id stop_order) s.symbol sell stop_market d_zero price)))

  -- `processExitOrStop`, for a signal of this kind and the portfolio of the day; `none` is a panic.
  unfoldable pub process_exit_or_stop :
      SignalKind
      → EngineConfig F D
      → Signal F
      → Portfolio F D
      → Time
      → Time
      → DaySnapshot F D
      → World F D
      → Option (Acted F D)
  process_exit_or_stop stop_update cfg s p now as_of snap w =
      if le s.stop_price (lit 0 0)
      then some (record { snap = snap; world = take_id w; fails = true })
      else move_to_stop cfg (cfg.new_proposal_id w.next_id) s now as_of snap (take_id w)
  process_exit_or_stop exit cfg s p now as_of snap w = some (
      exit_position cfg (cfg.new_proposal_id w.next_id) s now as_of snap (take_id w)
        (lookup s.symbol p.positions))
  process_exit_or_stop enter cfg s p now as_of snap w =
      some (record { snap = snap; world = take_id w; fails = true })

  -- What the loop does with an error.
  abbrev pub report_failure : Symbol → Time → Acted F D → DaySnapshot F D × World F D
  report_failure sym now a =
      if a.fails
      then note_order_error now a.snap (notify (order_failed sym) a.world)
      else (a.snap, a.world)

  -- The loop over the exits and the stops.
  unfoldable pub process_all :
      EngineConfig F D
      → Portfolio F D
      → Time
      → Time
      → List (Signal F)
      → DaySnapshot F D
      → World F D
      → Option (DaySnapshot F D × World F D)
  process_all cfg p now as_of [] snap w = some (snap, w)
  process_all cfg p now as_of (s ∷ rest) snap w = do
    a ← process_exit_or_stop s.kind cfg s p now as_of snap w
    let (snap', w') = report_failure s.symbol now a
    process_all cfg p now as_of rest snap' w'
