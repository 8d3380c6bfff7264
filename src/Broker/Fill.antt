-- ===== src/Broker/Fill.antt =====
-- The settlement of one order or stop: paper.go, settleExit, markFilled, markCanceled and the body of
-- the loop of fillPending.
pub mod Effects
use crypto_swing_bot.Prelude.{
  ℕ, Bool, Option, none, some, List, [], ◌∷◌, ◌++◌, if◌then◌else◌, ◌>>=◌,
}
use crypto_swing_bot.Prelude.Dict.{Dict, lookup, insert, erase}
use crypto_swing_bot.Float.{Float, Convert}
use crypto_swing_bot.Domain.{
  Symbol, Time, Candle, Side, buy, sell, OrderRequest, Order, Status, filled, canceled, Position,
}
use crypto_swing_bot.Broker.Book.{
  ExitReason, signal, stop, ClosedTrade, OpenPosition, PaperBroker, value_or, candle_at,
}

module _ {F D : Type 0} where
  abbrev pub set_canceled : ℕ → Option (Order D) → PaperBroker F D → PaperBroker F D
  set_canceled id none b = b
  set_canceled id (some o) b = record b { seen = insert id (record o { status = canceled }) b.seen }

  unfoldable pub mark_canceled : PaperBroker F D → ℕ → PaperBroker F D
  mark_canceled b id = set_canceled id (lookup id b.seen) b

module _ {F D : Type 0} ⦃f : Float F⦄ ⦃c : Convert F D⦄ where
  open f use {lit, add, sub, mul, div, eq}
  open c use {new_from_float, to_float}

  abbrev pub set_filled :
      ℕ → D → F → F → Option (Order D) → PaperBroker F D → Option (PaperBroker F D)
  set_filled id qty avg_price fee none b = some b
  set_filled id qty avg_price fee (some o) b = do
    price ← new_from_float avg_price
    paid ← new_from_float fee
    some (record b {
      seen =
          insert id (record o { filled_qty = qty; avg_price = price; fee = paid; status = filled })
            b.seen;
    })

  -- `none` is the panic of `NewFromFloat`.
  unfoldable pub mark_filled : PaperBroker F D → ℕ → D → F → F → Option (PaperBroker F D)
  mark_filled b id qty avg_price fee = set_filled id qty avg_price fee (lookup id b.seen) b

  -- What an entry has cost, and what the exit brings in after its fee.
  abbrev pub entry_cost : OpenPosition F D → F
  entry_cost p = add (mul p.position.entry_price (to_float p.position.qty)) p.entry_fee

  abbrev pub exit_fee : PaperBroker F D → OpenPosition F D → F → F
  exit_fee b p fill_price = mul (mul fill_price (to_float p.position.qty)) b.costs.fee_rate

  abbrev pub net_proceeds : PaperBroker F D → OpenPosition F D → F → F
  net_proceeds b p fill_price =
      sub (mul fill_price (to_float p.position.qty)) (exit_fee b p fill_price)

  unfoldable pub closed_trade :
      PaperBroker F D → Symbol → OpenPosition F D → F → Time → ExitReason → ClosedTrade F D
  closed_trade b symbol p fill_price t reason =
      let cost = entry_cost p in
      let pnl = sub (net_proceeds b p fill_price) cost in
      record {
        symbol = symbol;
        strategy = b.strategy_name;
        entry_time = p.position.entry_time;
        entry_price = p.position.entry_price;
        exit_time = t;
        exit_price = fill_price;
        qty = p.position.qty;
        fees = add p.entry_fee (exit_fee b p fill_price);
        pnl_quote = pnl;
        pnl_pct = if eq cost (lit 0 0) then lit 0 0 else div pnl cost;
        exit_reason = reason;
      }

  abbrev pub settle_position :
      Option (OpenPosition F D)
      → PaperBroker F D
      → Symbol
      → F
      → Time
      → ExitReason
      → Option (PaperBroker F D)
  settle_position none b symbol fill_price t reason = none
  settle_position (some p) b symbol fill_price t reason = some (record b {
    cash = add b.cash (net_proceeds b p fill_price);
    last_exit_fee = exit_fee b p fill_price;
    trades = b.trades ++ (closed_trade b symbol p fill_price t reason ∷ []);
    positions = erase symbol b.positions;
  })

  -- `none` is the answer `false`, with nothing changed.
  unfoldable pub settle_exit :
      PaperBroker F D → Symbol → F → Time → ExitReason → Option (PaperBroker F D)
  settle_exit b symbol fill_price t reason =
      settle_position (lookup symbol b.positions) b symbol fill_price t reason

  -- The price of a fill at the open, with the slippage against the trader.
  unfoldable pub fill_price_of : Side → PaperBroker F D → F → F
  fill_price_of buy b price = mul price (add (lit 1 0) (div b.costs.slippage_bps (lit 10_000 0)))
  fill_price_of sell b price = mul price (sub (lit 1 0) (div b.costs.slippage_bps (lit 10_000 0)))

  -- The position that a filled entry opens.
  unfoldable pub opened : PaperBroker F D → OrderRequest D → Candle F → Time → OpenPosition F D
  opened b req c t =
      let price = fill_price_of buy b c.open_price in
      record {
        position = record {
          symbol = req.symbol;
          qty = req.qty;
          entry_price = price;
          entry_time = t;
          stop_price = value_or (lit 0 0) (lookup req.symbol b.pending_stops);
          high_water = c.high;
          strategy = b.strategy_name;
        };
        entry_fee = mul (mul price (to_float req.qty)) b.costs.fee_rate;
      }

  unfoldable pub fill_buy :
      PaperBroker F D → OrderRequest D → Candle F → Time → Option (PaperBroker F D)
  fill_buy b req c t =
      let price = fill_price_of buy b c.open_price in
      let cost = mul price (to_float req.qty) in
      let fee = mul cost b.costs.fee_rate in
      mark_filled
        (record b {
          cash = sub b.cash (add cost fee);
          pending_stops = erase req.symbol b.pending_stops;
          positions = insert req.symbol (opened b req c t) b.positions;
        })
        req.client_order_id req.qty price fee

  -- The order of an exit whose position is gone is canceled.
  abbrev pub mark_exit :
      Option (PaperBroker F D) → PaperBroker F D → OrderRequest D → F → Option (PaperBroker F D)
  mark_exit none b req price = some (mark_canceled b req.client_order_id)
  mark_exit (some b') b req price =
      mark_filled b' req.client_order_id req.qty price b'.last_exit_fee

  unfoldable pub fill_sell :
      PaperBroker F D → OrderRequest D → Candle F → Time → Option (PaperBroker F D)
  fill_sell b req c t =
      let price = fill_price_of sell b c.open_price in
      mark_exit (settle_exit b req.symbol price t signal) b req price
