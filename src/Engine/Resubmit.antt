-- ===== src/Engine/Resubmit.antt =====
-- internal/engine/daily.go: Config, loadDecidedProposalsByDay and resubmitDecidedProposal.
use crypto_swing_bot.Prelude.{
  ℕ, Bool, Option, none, some, List, [], ◌∷◌, ◌++◌, if◌then◌else◌, ltb, ◌==◌, keep, ◌>>=◌,
}
use crypto_swing_bot.Prelude.Dict.{Dict}
use crypto_swing_bot.Float.{Float, Decimal, Convert}
use crypto_swing_bot.Domain.{Symbol, Time, buy, sell, market, stop_market}
use crypto_swing_bot.Config.{RiskConfig, BreakerConfig}
use crypto_swing_bot.Broker.Book.{Costs, PaperBroker, refused}
use crypto_swing_bot.Broker.Orders.{SubmitError, Submitted, placed, refused, submit}
use crypto_swing_bot.Notify.Approval.{approved, submitted, filled}
use crypto_swing_bot.Strategy.{Strategy}
use crypto_swing_bot.Backtest.Calendar.{unix_milli}
use crypto_swing_bot.Backtest.Engine.{OrderKind, entry_order, exit_order, stop_order, request}
use crypto_swing_bot.Engine.World.{ProposalSide, long, exit, stop_update, Proposal}
use crypto_swing_bot.Engine.Tables.{list_by_status}

-- `Config`, with its defaults filled in. The printing of a client order id, the making of a proposal's
-- id and the answers of the messenger are parameters.
pub record EngineConfig (F D : Type 0) : Type 0 where
  pub strategy : Strategy F D
  pub risk : RiskConfig F
  pub breaker : BreakerConfig F
  pub costs : Costs F
  pub initial_cash : F
  pub approval_ttl : Time
  pub poll_interval : Time
  pub client_order_id : ℕ → OrderKind → ℕ
  pub new_proposal_id : ℕ → ℕ
  pub btc_symbol : Symbol
  -- `ProposeTrade` returns no error for the proposal with this id.
  pub sends : ℕ → Bool

-- Why a proposal could not be turned into its orders.
pub data ResubmitError : Type 0 where
  submit_error : SubmitError → ResubmitError
  missing_stop : ResubmitError

-- The broker, the id of the order (0 for none) and the error, if there is one.
pub record Resubmitted (F D : Type 0) : Type 0 where
  pub broker : PaperBroker F D
  pub order_id : ℕ
  pub error : Option ResubmitError

module _ {F D : Type 0} where
  -- The order of a bucket: by `CreatedAt`, then by id.
  unfoldable pub proposal_less : Proposal F D → Proposal F D → Bool
  proposal_less p q =
      if p.created_at == q.created_at then ltb p.id q.id else ltb p.created_at q.created_at

  unfoldable pub insert_by_creation : Proposal F D → List (Proposal F D) → List (Proposal F D)
  insert_by_creation p [] = p ∷ []
  insert_by_creation p (q ∷ qs) =
      if proposal_less q p then q ∷ insert_by_creation p qs else p ∷ q ∷ qs

  unfoldable pub sort_by_creation : List (Proposal F D) → List (Proposal F D)
  sort_by_creation [] = []
  sort_by_creation (p ∷ ps) = insert_by_creation p (sort_by_creation ps)

  -- The rows that ever led to an order.
  unfoldable pub load_decided : Dict (Proposal F D) → List (Proposal F D)
  load_decided rows =
      list_by_status approved rows ++ (list_by_status submitted rows ++ list_by_status filled rows)

  -- The bucket of a day.
  unfoldable pub decided_on : Time → List (Proposal F D) → List (Proposal F D)
  decided_on day decided =
      sort_by_creation (keep (λ p. unix_milli p.as_of == unix_milli day) decided)

  -- The answer of one order that ends the resubmission.
  abbrev pub last_order : PaperBroker F D × Submitted D → Resubmitted F D
  last_order (b, placed o) = record { broker = b; order_id = o.id; error = none }
  last_order (b, refused e) = record { broker = b; order_id = 0; error = some (submit_error e) }

  -- The answer of the stop behind an entry, which keeps the entry's id.
  abbrev pub stop_answer : ℕ → PaperBroker F D × Submitted D → Resubmitted F D
  stop_answer id (b, placed o) = record { broker = b; order_id = id; error = none }
  stop_answer id (b, refused e) = record {
    broker = b;
    order_id = id;
    error = some (submit_error e);
  }

module _ {F : Type 0} ⦃f : Float F⦄ where
  open f use {lit, le}

  -- The stop price of a row, if it has one that is positive.
  abbrev pub stop_of : Option F → Option F
  stop_of none = none
  stop_of (some price) = if le price (lit 0 0) then none else some price

module _ {F D : Type 0} ⦃f : Float F⦄ ⦃d : Decimal D⦄ ⦃c : Convert F D⦄ where
  open d use {d_zero}
  open c use {new_from_float}

  -- The stop behind an entry that was placed.
  abbrev pub protect_entry :
      ℕ → Symbol → Option F → PaperBroker F D × Submitted D → Option (Resubmitted F D)
  protect_entry stop_id sym stop (b, refused e) = some (last_order (b, refused e))
  protect_entry stop_id sym none (b, placed o) =
      some (record { broker = b; order_id = o.id; error = some missing_stop })
  protect_entry stop_id sym (some stop) (b, placed o) = do
    price ← new_from_float stop
    some (stop_answer o.id (submit b (request stop_id sym sell stop_market d_zero price)))

  abbrev pub resubmit_stop : ℕ → Symbol → Option F → PaperBroker F D → Option (Resubmitted F D)
  resubmit_stop stop_id sym none b =
      some (record { broker = b; order_id = 0; error = some missing_stop })
  resubmit_stop stop_id sym (some stop) b = do
    price ← new_from_float stop
    some (last_order (submit b (request stop_id sym sell stop_market d_zero price)))

  abbrev pub resubmit_side :
      ProposalSide → EngineConfig F D → PaperBroker F D → Proposal F D → Option (Resubmitted F D)
  resubmit_side long cfg b p =
      protect_entry (cfg.client_order_id p.id stop_order) p.symbol (stop_of p.stop_price)
        (submit b (request (cfg.client_order_id p.id entry_order) p.symbol buy market p.qty d_zero))
  resubmit_side exit cfg b p = some (
      last_order (
        submit b (request (cfg.client_order_id p.id exit_order) p.symbol sell market p.qty d_zero)))
  resubmit_side stop_update cfg b p =
      resubmit_stop (cfg.client_order_id p.id stop_order) p.symbol (stop_of p.stop_price) b

  -- `resubmitDecidedProposal`; `none` is a panic of the decimal package.
  unfoldable pub resubmit :
      EngineConfig F D → PaperBroker F D → Proposal F D → Option (Resubmitted F D)
  resubmit cfg b p = resubmit_side p.side cfg b p

  -- The loop over the bucket of a day, which passes over the errors.
  unfoldable pub resubmit_all :
      EngineConfig F D → List (Proposal F D) → PaperBroker F D → Option (PaperBroker F D)
  resubmit_all cfg [] b = some b
  resubmit_all cfg (p ∷ ps) b = do r ← resubmit cfg b p; resubmit_all cfg ps r.broker
