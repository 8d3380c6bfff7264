-- ===== src/Backtest.antt =====
-- internal/backtest: the replay of a strategy over the history (engine.go) and the windows of the
-- walk-forward validation (walkforward.go).
pub mod Windows
pub mod Calendar
pub mod Engine
pub mod Run
pub mod Benchmark
mod Tests
