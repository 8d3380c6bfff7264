-- ===== src/Lib.antt =====
-- The decision and simulation core of the swing-trading bot, modelled function by function.
--
-- A strategy turns the closed daily bars into signals (internal/strategy, on the indicators of
-- internal/indicator). The risk package judges each entry (Gate), computes its quantity (Sizer) and
-- stops all entries when the account does badly (Breaker). The paper broker takes the orders, settles
-- them at the open of the next day and closes positions at their stops. The backtest engine
-- (internal/backtest/engine.go) puts these together: for every day of the calendar it advances the
-- broker, feeds the breaker with the closed trades, asks the strategy, submits stops and exits, and
-- then the entries that the gate approves. Walk-forward validation lays out the periods that such
-- replays are run on. The daily engine (internal/engine) does the same for the account of paper trading,
-- a day at a time: it rebuilds the account from the tables, sends each entry to the operator, waits for
-- the decisions and submits what was approved; the scheduler wakes it once a day. The bars it works on
-- were checked by the data feed, and its symbols are those that the universe's filter lets through.
-- Beside it stand the pacing of the exchange's calls and the approval of proposals.
--
-- Files:
-- - Prelude: lists, tests and integers over the native numbers; Go's maps as association lists.
-- - Float: what the program does with float64 and with shopspring's decimal.Decimal, as interfaces;
--   Float/Fixed and Float/Whole are numbers to run the definitions on.
-- - Domain: internal/domain. Config: the sections of internal/config/config.go that risk reads.
-- - Risk/Sizer, Risk/Gate, Risk/Breaker: internal/risk/sizer.go (Size, floorToStep), gate.go
--   (Evaluate), breaker.go (RecordTrade, RecordOrderError, Reset, Check). The modules below them prove.
-- - Broker/Book, Fill, Day, Orders, View: internal/broker/paper.go, the state, fillBuy and settleExit,
--   Advance with its phases, Submit, Cancel and OrderStatus, Portfolio. Broker/Invariant and
--   Broker/Ledger prove.
-- - Indicator/Slice, Average, Oscillator: internal/indicator; Indicator/Causal proves.
-- - Strategy, Strategy/Trendfollow: internal/strategy/strategy.go and trendfollow.go.
-- - Backtest/Calendar, Engine, Run: internal/backtest/engine.go. Backtest/Windows:
--   internal/backtest/walkforward.go, BuildWindows and ClassifyRegime.
-- - Backtest/Benchmark: internal/backtest/metrics.go, BuyAndHoldCurve and Top10EqualWeightCurve.
-- - Engine/World, Tables: the tables of internal/store/proposals.go and trades.go that the daily loop
--   uses, the clock, the decisions and the messages, and the steps of a program on them. Engine/Resubmit,
--   Rebuild, Notices, Exits, Entries, Decisions, Sync, Daily: internal/engine/daily.go, from
--   resubmitDecidedProposal, reconstruct, persistBreakerState, processExitOrStop, proposeEntry,
--   awaitDecisions and syncTrades to RunOnce and ResumePending. Engine/Scheduler:
--   internal/engine/scheduler.go. The modules below them prove.
-- - Feed/Quality: internal/datafeed/quality.go, ValidateCandles. Universe/Names, Filter:
--   internal/universe/filter.go, Filter. The modules below them prove.
-- - Exchange/RateLimit, Exchange/Backoff: internal/exchange/ratelimit.go.
-- - Notify/Approval: internal/notify/approval.go.
-- - The modules named Tests: runs, and the theorems at concrete inputs.
--
-- How the code is modelled:
-- - The program's numbers are two interfaces without laws, so a definition holds for float64 as it
--   is: comparisons are three tests, and NaN is less than nothing. A theorem that needs a law of the
--   numbers says so among its hypotheses.
-- - A method on a pointer is a function from the state to the new state. A mutex makes each method one
--   step. A panic of decimal.NewFromFloat is the value none, or the constructor for it.
-- - Symbols, order ids and strategy names are compared only, so they are numbers. An instant is its
--   nanoseconds since Go's zero time; the cursor of a symbol is stored plus one.
-- - Where Go walks through a map, the model walks through its list, in whichever order that has.
-- - Errors are values of a data type per function; their texts, and the reasons and metrics that a
--   signal carries for a log, are left out. The strategy and the printing of client order ids are
--   parameters of a replay.
-- - A bound of the backoff is an int64 whose doubling wraps around. The other int values, counts of bars
--   and of days, are integers without overflow.
-- - The daily loop is a state monad over the tables, the clock and the messages, with errors and panics.
--   A decision is in the channel from its instant on, and where select may take either of two cases, a
--   parameter says which. The feed, the universe of a day and the answers of the messenger are
--   parameters, as are the making of ids and the time zone.
-- - Three loops run on fuel. That of BuildWindows has the days of the data and one more, and each turn
--   takes a day at least. The wait for decisions needs one turn for each queued decision and each
--   instant up to the last deadline, the sleep of the scheduler one for each minute.
--
-- Not modelled: the momentum strategy, the universe's scores, the trade statistics and thresholds of a
-- backtest and the fetching of the data feed; the rest of the store (SQL), the exchange
-- and Telegram clients (network), the web panel and the command line, which are input and output.
pub mod Prelude
pub mod Float
pub mod Domain
pub mod Config
pub mod Risk
pub mod Broker
pub mod Indicator
pub mod Strategy
pub mod Exchange
pub mod Notify
pub mod Backtest
pub mod Engine
pub mod Feed
pub mod Universe
