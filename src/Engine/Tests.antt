-- ===== src/Engine/Tests.antt =====
-- A day of paper trading, and the theorems at it.
use crypto_swing_bot.Prelude.{
  ℕ, ◌+◌, ◌*◌, ◌≡◌, refl, ℤ, pos, Bool, true, false, some, List, [], ◌∷◌, arith,
}
use crypto_swing_bot.Float.Fixed.{fixed_decimal}
use crypto_swing_bot.Float.Whole.{whole_float, whole_convert}
use crypto_swing_bot.Domain.{Time, Candle, Signal, enter, Market, hour}
use crypto_swing_bot.Risk.Breaker.{day}
use crypto_swing_bot.Notify.Approval.{expired}
use crypto_swing_bot.Strategy.{Strategy}
use crypto_swing_bot.Engine.World.{World, Step, goes, stops, panics}
use crypto_swing_bot.Engine.Resubmit.{EngineConfig}
use crypto_swing_bot.Engine.Decisions.{
  await_decisions, await_loop, turn, select, receive, expire_all, by_id,
}
use crypto_swing_bot.Engine.Decisions.Rows.{status_at}
use crypto_swing_bot.Risk.Breaker.{daily_loss}
use crypto_swing_bot.Broker.Book.{fresh, paper}
use crypto_swing_bot.Engine.Rebuild.{DaySnapshot}
use crypto_swing_bot.Engine.After.{After}
use crypto_swing_bot.Engine.Exits.Sells.{buys, IsCalm}
use crypto_swing_bot.Engine.Daily.Once.{run_once-again}
use crypto_swing_bot.Engine.Daily.Halted.{act_on_signals-IsCalm}
use crypto_swing_bot.Engine.Daily.{Surroundings, candle_day, run_once}
use crypto_swing_bot.Engine.Tables.{update_proposal_status}
use crypto_swing_bot.Engine.Tables.{
  list_by_status, insert_proposal, insert_equity_snapshot, insert_by_ts, list_equity_snapshots,
}
use crypto_swing_bot.Engine.Resubmit.{
  proposal_less, insert_by_creation, sort_by_creation, load_decided, decided_on, resubmit,
  resubmit_all,
}
use crypto_swing_bot.Engine.Rebuild.{
  record_errors, record_closed, close_day, replay_days, reconstruct,
}
use crypto_swing_bot.Engine.Notices.{note_order_error, persist_breaker_state, notify_stop_triggers}
use crypto_swing_bot.Engine.Exits.{process_exit_or_stop, process_all}
use crypto_swing_bot.Engine.Entries.{propose_entry, propose_all, submit_approved, submit_all}
use crypto_swing_bot.Engine.Sync.{
  closed_rows, open_rows, trade_rows, sync_trades, fill_all, sync_proposal_fills,
}
use crypto_swing_bot.Engine.Daily.{
  candle_day, already_processed, series_and_universe, mark_submitted, act_on_signals,
  write_snapshot, trade_day, run_day, resume_pending,
}
use crypto_swing_bot.Broker.Book.{new_cursors, costs_valid, candle_at, new_paper_broker}
use crypto_swing_bot.Broker.Day.{
  advance_known, advance_cursors, insert_sorted, sort_symbols, gap_fill, fill_one, fill_loop,
  fill_pending, raise_all, update_high_water, check_stop, check_all_stops, check_stops, advance,
}
use crypto_swing_bot.Broker.Fill.{
  mark_canceled, mark_filled, closed_trade, settle_exit, fill_price_of, opened, fill_buy, fill_sell,
}
use crypto_swing_bot.Broker.Orders.{
  find_client_order_id, dequeue, new_order, order_error, move_stop, place, submit, order_status,
  cancel,
}
use crypto_swing_bot.Broker.View.{
  last_close, marked, plain_positions, portfolio, closed_trades_since,
}
use crypto_swing_bot.Backtest.Calendar.{
  insert_time, sort_times, note_series, note_all, build_calendar, index_series, build_date_index,
  truncate_series, select_all, build_series_and_universe,
}
use crypto_swing_bot.Backtest.Benchmark.{
  by_time, buy_at, hold_loop, buy_and_hold_curve, volume_sum, rank_all, insert_ranked, sort_ranked,
  blank_points, add_leg, add_legs, with_exposure, top10_equal_weight_curve,
}
use crypto_swing_bot.Risk.Gate.{in_cooldown, cannot_afford, first_broken, evaluate}
use crypto_swing_bot.Risk.Sizer.{floor_to_step, trim, checked, trimmed, size}
use crypto_swing_bot.Risk.Breaker.{
  prune, count_until, closed_on_day, record_trade, record_order_error, reset, new_breaker,
  leading_losses, consecutive, daily_pnl, drawdown_trips, daily_loss_trips, condition, new_peak,
  check,
}
use crypto_swing_bot.Domain.{is_listed_at, is_filled, exposure, unrealized_pnl}
use crypto_swing_bot.Engine.Decisions.Examples.{world, world_of}

abbrev bar : ℕ → ℕ → Candle ℤ
bar n price = record {
  open_time = n * day;
  open_price = pos price;
  high = pos price;
  low = pos price;
  close = pos price;
  volume = pos 1;
  quote_volume = pos price;
}

-- A strategy that asks for every symbol of the universe.
abbrev signal_for : Time → ℕ → Signal ℤ
signal_for t sym = record {
  as_of = t;
  symbol = sym;
  kind = enter;
  score = pos 0;
  ref_price = pos 100;
  stop_price = pos 90;
}

abbrev signals_for : Time → List ℕ → List (Signal ℤ)
signals_for t [] = []
signals_for t (sym ∷ syms) = signal_for t sym ∷ signals_for t syms

abbrev greedy : Strategy ℤ ℤ
greedy = record {
  name = 1;
  warmup_bars = pos 0;
  evaluate = λ i. some (signals_for i.as_of i.universe);
}

abbrev pub config : EngineConfig ℤ ℤ
config = record {
  strategy = greedy;
  risk = record {
    risk_per_trade = pos 1;
    max_positions = pos 5;
    max_exposure = pos 1;
    max_position_pct = pos 1;
    cooldown_hours = pos 24;
  };
  breaker = record {
    max_drawdown = pos 1;
    max_daily_loss = pos 1;
    max_consecutive_losses = pos 6;
    max_order_errors_24h = pos 3;
  };
  costs = record { fee_rate = pos 1; slippage_bps = pos 15 };
  initial_cash = pos 1000;
  approval_ttl = 100;
  poll_interval = 40;
  client_order_id = λ id kind. id + 1;
  new_proposal_id = λ n. n + 10;
  btc_symbol = 7;
  sends = λ id. true;
}

abbrev pub surroundings : Surroundings ℤ ℤ
surroundings = record {
  update = λ candles. some candles;
  critical_issues = λ candles. some 0;
  universe = λ t w. some (7 ∷ []);
  cancel_first = λ n. false;
  fuel = λ w. 200;
}

abbrev market : Market ℤ
market = record {
  symbol = 7;
  base = 1;
  quote = 2;
  active = true;
  tick_size = pos 1;
  step_size = pos 1;
  min_notional = pos 1;
  listed_at = 0;
  delisted_at = 0;
}

-- The morning behind the second bar of the symbol 7.
abbrev pub morning : World ℤ ℤ
morning = record world {
  proposals = [];
  markets = (7, market) ∷ [];
  candles = (7, bar 1 100 ∷ bar 2 100 ∷ []) ∷ [];
  decisions = [];
  now = 3 * day + hour;
}

abbrev day_result : Step ℤ ℤ (Unit {0})
day_result = run_once config surroundings morning

abbrev evening : World ℤ ℤ
evening = world_of day_result

abbrev is_goes : {A : Type 0} → Step ℤ ℤ A → Bool
is_goes (goes a w) = true
is_goes _ = false

goes-world_of : (s : Step ℤ ℤ (Unit {0})) → is_goes s ≡ true → s ≡ goes tt (world_of s)
goes-world_of (goes tt w) h = refl
goes-world_of (stops e w) h = absurd (ground (arith, h))
goes-world_of panics h = absurd (ground (arith, h))

day_goes : day_result ≡ goes tt evening
unfolding list_by_status insert_proposal update_proposal_status insert_equity_snapshot insert_by_ts
    list_equity_snapshots proposal_less insert_by_creation sort_by_creation load_decided decided_on
    resubmit resubmit_all record_errors record_closed close_day replay_days reconstruct
    note_order_error persist_breaker_state notify_stop_triggers process_exit_or_stop process_all
    propose_entry propose_all submit_approved submit_all closed_rows open_rows trade_rows
    sync_trades fill_all sync_proposal_fills candle_day already_processed series_and_universe
    mark_submitted act_on_signals write_snapshot trade_day run_day run_once resume_pending
    new_cursors costs_valid candle_at new_paper_broker advance_known advance_cursors insert_sorted
    sort_symbols gap_fill fill_one fill_loop fill_pending raise_all update_high_water check_stop
    check_all_stops check_stops advance mark_canceled mark_filled closed_trade settle_exit
    fill_price_of opened fill_buy fill_sell find_client_order_id dequeue new_order order_error
    move_stop place submit order_status cancel last_close marked plain_positions portfolio
    closed_trades_since insert_time sort_times note_series note_all build_calendar index_series
    build_date_index truncate_series select_all build_series_and_universe by_time buy_at hold_loop
    buy_and_hold_curve volume_sum rank_all insert_ranked sort_ranked blank_points add_leg add_legs
    with_exposure top10_equal_weight_curve in_cooldown cannot_afford first_broken evaluate
    floor_to_step trim checked trimmed size prune count_until closed_on_day record_trade
    record_order_error reset new_breaker leading_losses consecutive daily_pnl drawdown_trips
    daily_loss_trips condition new_peak check is_listed_at is_filled exposure unrealized_pnl
    await_decisions await_loop by_id turn select receive expire_all
day_goes = goes-world_of day_result refl

-- The strategy asked for the symbol 7, and nobody answered.
evening_row : status_at 10 evening ≡ some expired
unfolding list_by_status insert_proposal update_proposal_status insert_equity_snapshot insert_by_ts
    list_equity_snapshots proposal_less insert_by_creation sort_by_creation load_decided decided_on
    resubmit resubmit_all record_errors record_closed close_day replay_days reconstruct
    note_order_error persist_breaker_state notify_stop_triggers process_exit_or_stop process_all
    propose_entry propose_all submit_approved submit_all closed_rows open_rows trade_rows
    sync_trades fill_all sync_proposal_fills candle_day already_processed series_and_universe
    mark_submitted act_on_signals write_snapshot trade_day run_day run_once resume_pending
    new_cursors costs_valid candle_at new_paper_broker advance_known advance_cursors insert_sorted
    sort_symbols gap_fill fill_one fill_loop fill_pending raise_all update_high_water check_stop
    check_all_stops check_stops advance mark_canceled mark_filled closed_trade settle_exit
    fill_price_of opened fill_buy fill_sell find_client_order_id dequeue new_order order_error
    move_stop place submit order_status cancel last_close marked plain_positions portfolio
    closed_trades_since insert_time sort_times note_series note_all build_calendar index_series
    build_date_index truncate_series select_all build_series_and_universe by_time buy_at hold_loop
    buy_and_hold_curve volume_sum rank_all insert_ranked sort_ranked blank_points add_leg add_legs
    with_exposure top10_equal_weight_curve in_cooldown cannot_afford first_broken evaluate
    floor_to_step trim checked trimmed size prune count_until closed_on_day record_trade
    record_order_error reset new_breaker leading_losses consecutive daily_pnl drawdown_trips
    daily_loss_trips condition new_peak check is_listed_at is_filled exposure unrealized_pnl
    await_decisions await_loop by_id turn select receive expire_all
evening_row = refl

-- Six hours after the morning, when the proposals have been lost.
abbrev later : World ℤ ℤ
later = record evening { now = 3 * day + 7 * hour; proposals = [] }

run_once-again_example :
    run_once (record config { initial_cash = pos 5 }) (record surroundings { fuel = λ w. 0 }) later
    ≡ goes tt later
run_once-again_example =
    run_once-again config (record config { initial_cash = pos 5 }) surroundings
      (record surroundings { fuel = λ w. 0 }) morning evening later day_goes refl (omega arith)

-- The account of the morning with a breaker that is open.
abbrev halted : DaySnapshot ℤ ℤ
halted = record {
  broker = fresh paper morning.candles (pos 1000) config.costs day 1;
  breaker = record {
    state = record { is_open = true; reason = some daily_loss; at = day };
    trades = [];
    errors = [];
    peak_equity = pos 1000;
  };
  last_exit_at = [];
  trades_seen = 0;
  order_errors = [];
  todays_closed_trades = [];
}

act_on_signals-IsCalm_example :
    After
      (λ s w'. IsCalm (buys halted.broker) s)
      (act_on_signals config surroundings morning.now
        (2 * day)
        (portfolio halted.broker)
        (signal_for (2 * day) 7 ∷ [])
        halted
        morning)
act_on_signals-IsCalm_example =
    act_on_signals-IsCalm config surroundings morning.now (2 * day) (portfolio halted.broker)
      (signal_for (2 * day) 7 ∷ []) halted morning refl
