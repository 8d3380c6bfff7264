-- ===== src/Broker/Orders.antt =====
-- Placing, reading and canceling orders: paper.go, Submit, OrderStatus and Cancel.
pub mod Submit
pub mod Unsettled
use crypto_swing_bot.Prelude.{
  ℕ, ◌+◌, Bool, true, false, ◌&&◌, Option, none, some, is_some, List, [], ◌∷◌, ◌++◌, if◌then◌else◌,
  ◌==◌, any, not,
}
use crypto_swing_bot.Prelude.Dict.{Dict, lookup, insert}
use crypto_swing_bot.Float.{Float, Decimal, Convert}
use crypto_swing_bot.Domain.{
  Symbol, Side, buy, sell, OrderType, market, stop_market, other, OrderRequest, Order, Status,
  pending, accepted, canceled, Position,
}
use crypto_swing_bot.Broker.Book.{OpenPosition, PaperBroker}

pub data SubmitError : Type 0 where
  unknown_symbol qty_not_positive already_open entry_pending no_position exit_pending : SubmitError
  stop_not_sell stop_not_positive unsupported_type : SubmitError

pub data Submitted (D : Type 0) : Type 0 where
  placed : Order D → Submitted D
  refused : SubmitError → Submitted D

pub data CancelError : Type 0 where
  unknown_order not_pending : CancelError

abbrev pub same_side : Side → Side → Bool
same_side buy buy = true
same_side sell sell = true
same_side _ _ = false

module _ {D : Type 0} where
  -- An order of this side is queued for the symbol.
  abbrev pub is_queued : Side → Symbol → List (OrderRequest D) → Bool
  is_queued side symbol reqs = any (λ r. r.symbol == symbol && same_side r.side side) reqs

  -- The first entry of `seen` with this id and symbol; 0 is the empty key, which is also what is
  -- left where there is none. Ids are given out once, so the order of the map does not matter.
  unfoldable pub find_client_order_id : Symbol → ℕ → Dict (Order D) → ℕ
  find_client_order_id symbol id [] = 0
  find_client_order_id symbol id ((cid, o) ∷ rest) =
      if o.id == id && o.symbol == symbol then cid else find_client_order_id symbol id rest

  abbrev pub kept : OrderRequest D → Option (List (OrderRequest D)) → Option (List (OrderRequest D))
  kept r none = none
  kept r (some rs) = some (r ∷ rs)

  -- The queue without its first order of this client id, if there is one.
  unfoldable pub dequeue : ℕ → List (OrderRequest D) → Option (List (OrderRequest D))
  dequeue cid [] = none
  dequeue cid (r ∷ rs) = if r.client_order_id == cid then some rs else kept r (dequeue cid rs)

  abbrev pub status_of : Option (Order D) → Option Status
  status_of none = none
  status_of (some o) = some (o.status)

  abbrev pub set_status : Status → ℕ → Option (Order D) → Dict (Order D) → Dict (Order D)
  set_status s cid none seen = seen
  set_status s cid (some o) seen = insert cid (record o { status = s }) seen

-- What a stop at this price is refused for, by its side.
abbrev pub stop_error : {F : Type 0} ⦃f : Float F⦄ → Side → F → Option SubmitError
stop_error buy price = some stop_not_sell
stop_error ⦃f⦄ sell price = if f.le price (f.lit 0 0) then some stop_not_positive else none

module _ {F D : Type 0} ⦃f : Float F⦄ ⦃d : Decimal D⦄ ⦃c : Convert F D⦄ where
  open f use {lit, le}
  open d use {d_zero, is_positive}
  open c use {to_float}

  unfoldable pub new_order : PaperBroker F D → OrderRequest D → Order D
  new_order b req = record {
    id = b.seq + 1;
    client_order_id = req.client_order_id;
    symbol = req.symbol;
    side = req.side;
    order_type = req.order_type;
    qty = req.qty;
    price = req.price;
    filled_qty = d_zero;
    avg_price = d_zero;
    fee = d_zero;
    status = pending;
    created_at = b.now;
  }

  -- What a market order is refused for, by its side.
  abbrev pub market_error : Side → PaperBroker F D → OrderRequest D → Option SubmitError
  market_error buy b req =
      if is_some (lookup req.symbol b.positions)
      then some already_open
      else if is_queued buy req.symbol b.pending
      then some entry_pending
      else none
  market_error sell b req =
      if is_some (lookup req.symbol b.positions)
      then (if is_queued sell req.symbol b.pending then some exit_pending else none)
      else some no_position

  -- What `Submit` refuses an order for, by its type.
  unfoldable pub order_error : OrderType → PaperBroker F D → OrderRequest D → Option SubmitError
  order_error market b req =
      if is_positive req.qty then market_error req.side b req else some qty_not_positive
  order_error stop_market b req = stop_error req.side (to_float req.price)
  order_error other b req = some unsupported_type

  -- The stop of an open position is moved; where there is none, the level is kept for the entry.
  unfoldable pub move_stop :
      Option (OpenPosition F D) → PaperBroker F D → OrderRequest D → PaperBroker F D
  move_stop none b req = record b {
    pending_stops = insert req.symbol (to_float req.price) b.pending_stops;
  }
  move_stop (some p) b req = record b {
    positions =
        insert req.symbol
          (record p { position = record (p.position) { stop_price = to_float req.price } })
          b.positions;
  }

  -- What an accepted order does to the broker, and the status that it gets.
  unfoldable pub place : OrderType → PaperBroker F D → OrderRequest D → PaperBroker F D × Status
  place stop_market b req = (move_stop (lookup req.symbol b.positions) b req, accepted)
  place _ b req = (record b { pending = b.pending ++ (req ∷ []) }, pending)

  -- The number of the order is taken before the checks, and a refused order wastes it.
  abbrev pub submit_new :
      Option SubmitError → PaperBroker F D → OrderRequest D → PaperBroker F D × Submitted D
  submit_new (some e) b req = (record b { seq = b.seq + 1 }, refused e)
  submit_new none b req =
      let (b', status) = place req.order_type (record b { seq = b.seq + 1 }) req in
      let order = record (new_order b req) { status = status } in
      (record b' { seen = insert req.client_order_id order b'.seen }, placed order)

  abbrev pub submit_unseen :
      Option (Order D) → PaperBroker F D → OrderRequest D → PaperBroker F D × Submitted D
  submit_unseen (some o) b req = (b, placed o)
  submit_unseen none b req =
      if is_some (lookup req.symbol b.candles)
      then submit_new (order_error req.order_type b req) b req
      else (b, refused unknown_symbol)

  -- The method `Submit`.
  unfoldable pub submit : PaperBroker F D → OrderRequest D → PaperBroker F D × Submitted D
  submit b req = submit_unseen (lookup req.client_order_id b.seen) b req

module _ {F D : Type 0} where
  -- The method `OrderStatus`; `none` is an id that was never seen.
  unfoldable pub order_status : PaperBroker F D → ℕ → Option Status
  order_status b id = status_of (lookup id b.seen)

  abbrev pub cancel_queued :
      Option (List (OrderRequest D)) → PaperBroker F D → ℕ → PaperBroker F D × Option CancelError
  cancel_queued none b cid = (b, some not_pending)
  cancel_queued (some rest) b cid =
      (record b { pending = rest; seen = set_status canceled cid (lookup cid b.seen) b.seen }, none)

  -- The method `Cancel`; `none` is success.
  unfoldable pub cancel : PaperBroker F D → Symbol → ℕ → PaperBroker F D × Option CancelError
  cancel b symbol id =
      let cid = find_client_order_id symbol id b.seen in
      if cid == 0 then (b, some unknown_order) else cancel_queued (dequeue cid b.pending) b cid
