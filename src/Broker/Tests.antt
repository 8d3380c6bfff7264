-- ===== src/Broker/Tests.antt =====
-- Runs of the paper broker on one symbol, and the theorems at these inputs.
use crypto_swing_bot.Prelude.{ℕ, ◌≡◌, refl, ℤ, pos, some, List, [], ◌∷◌, arith}
use crypto_swing_bot.Prelude.Dict.{Dict}
use crypto_swing_bot.Float.Fixed.{fixed_decimal}
use crypto_swing_bot.Float.Whole.{whole_float, whole_convert}
use crypto_swing_bot.Domain.{
  Candle, buy, sell, market, stop_market, OrderRequest, filled, accepted, pending,
}
use crypto_swing_bot.Broker.Book.{
  PaperBroker, Costs, backtest, created, fresh, new_paper_broker, costs_valid, candle_at,
  new_cursors,
}
use crypto_swing_bot.Broker.Fill.{
  fill_buy, mark_filled, settle_exit, closed_trade, fill_price_of, opened,
}
use crypto_swing_bot.Broker.Day.{
  Advanced, settled, advance, advance_cursors, advance_known, fill_pending, fill_loop, fill_one,
  update_high_water, raise_all, check_stops, check_all_stops, check_stop, gap_fill, sort_symbols,
  insert_sorted,
}
use crypto_swing_bot.Broker.Orders.{
  SubmitError, refused, submit, place, order_error, new_order, move_stop, order_status,
}
use crypto_swing_bot.Broker.Orders.Submit.{submit-submit, submit_keeps}
use crypto_swing_bot.Broker.Invariant.{IsWell, submits, advances, Reach, here, next, new-IsWell}
use crypto_swing_bot.Broker.Ledger.Exact.{IsExact}
use crypto_swing_bot.Broker.Ledger.Balance.{new-IsBalanced}
use crypto_swing_bot.Broker.Ledger.Balance.Settlement.{IsBalanced}

abbrev bar : ℕ → ℕ → ℕ → ℕ → Candle ℤ
bar t o l h = record {
  open_time = t;
  open_price = pos o;
  high = pos h;
  low = pos l;
  close = pos o;
  volume = pos 1;
  quote_volume = pos o;
}

-- Three days of symbol 7; on the third the price opens below the stop at 85.
abbrev history : Dict (List (Candle ℤ))
history = (7, bar 1 100 95 110 ∷ bar 2 100 90 120 ∷ bar 3 80 70 90 ∷ []) ∷ []

abbrev costs : Costs ℤ
costs = record { fee_rate = pos 1; slippage_bps = pos 15 }

abbrev start : PaperBroker ℤ ℤ
start = fresh backtest history (pos 1000) costs 1 0

abbrev entry : OrderRequest ℤ
entry = record {
  client_order_id = 11;
  symbol = 7;
  side = buy;
  order_type = market;
  qty = pos 2;
  price = pos 0;
}

abbrev stop_order : OrderRequest ℤ
stop_order = record {
  client_order_id = 12;
  symbol = 7;
  side = sell;
  order_type = stop_market;
  qty = pos 0;
  price = pos 85;
}

abbrev after : Advanced ℤ ℤ → PaperBroker ℤ ℤ
after (settled b) = b
after _ = start

abbrev ordered : PaperBroker ℤ ℤ
ordered = (submit (submit start entry).0 stop_order).0

abbrev day_two : PaperBroker ℤ ℤ
day_two = after (advance ordered 2)

abbrev day_three : PaperBroker ℤ ℤ
day_three = after (advance day_two 3)

-- The entry is filled at the open of the day after it was submitted.
entry_filled :
    (order_status ordered 11 ≡ some pending)
    × (order_status day_two 11 ≡ some filled)
    × (order_status day_two 12 ≡ some accepted)
unfolding order_status advance submit place order_error new_order move_stop advance_cursors
    advance_known fill_pending fill_loop fill_one candle_at fill_buy mark_filled opened
    fill_price_of new_cursors update_high_water raise_all check_stops check_all_stops check_stop
    sort_symbols insert_sorted
entry_filled = (refl, refl, refl)

start_created : new_paper_broker backtest history (pos 1000) costs 1 0 ≡ created start
unfolding new_paper_broker costs_valid
start_created = refl

submit-submit_example :
    submit (submit start entry).0 entry ≡ ((submit start entry).0, (submit start entry).1)
unfolding submit place order_error new_order
submit-submit_example = submit-submit start entry entry _ refl refl

whole-IsExact : IsExact ℤ
whole-IsExact = record {
  add_comm = λ a b. ground arith;
  add_assoc = λ a b c. ground arith;
  zero_add = λ a. ground arith;
  sub_add = λ a b. ground arith;
}

second_day : advance ordered 2 ≡ settled day_two
unfolding advance submit place order_error new_order move_stop advance_cursors advance_known
    fill_pending fill_loop fill_one candle_at fill_buy mark_filled opened fill_price_of new_cursors
    update_high_water raise_all check_stops check_all_stops check_stop sort_symbols insert_sorted
second_day = refl

third_day : advance day_two 3 ≡ settled day_three
unfolding advance submit place order_error new_order move_stop advance_cursors advance_known
    fill_pending fill_loop fill_one candle_at fill_buy mark_filled opened fill_price_of new_cursors
    update_high_water raise_all check_stops check_all_stops check_stop sort_symbols insert_sorted
    gap_fill settle_exit closed_trade
third_day = refl

-- The stop at 85 is filled at the open of 80, and the account holds the cash that is left.
stopped_out : (day_three.positions ≡ []) × (day_three.cash ≡ pos 600)
unfolding advance submit place order_error new_order move_stop advance_cursors advance_known
    fill_pending fill_loop fill_one candle_at fill_buy mark_filled opened fill_price_of new_cursors
    update_high_water raise_all check_stops check_all_stops check_stop sort_symbols insert_sorted
    gap_fill settle_exit closed_trade
stopped_out = (refl, refl)

calls : Reach start day_three
calls =
    next (next (next (next here (submits entry)) (submits stop_order)) (advances 2 second_day))
      (advances 3 third_day)

new-IsWell_example : IsWell day_three
new-IsWell_example = new-IsWell backtest history (pos 1000) costs 1 0 start_created calls

new-IsBalanced_example : IsBalanced (pos 1000) day_three
new-IsBalanced_example =
    new-IsBalanced whole-IsExact (pos 1000) backtest history costs 1 0 start_created calls

submit_keeps_example :
    let b = (submit start stop_order).0 in
    (b.cash ≡ pos 1000)
    × (b.trades ≡ [])
    × (b.now ≡ 1)
    × (b.known ≡ start.known)
    × ((e : SubmitError) → (submit start stop_order).1 ≡ refused e → record b { seq = 0 } ≡ start)
submit_keeps_example = submit_keeps start stop_order
