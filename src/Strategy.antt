-- ===== src/Strategy.antt =====
-- internal/strategy: what a strategy is given and what the engine sees of it (strategy.go), and the
-- trend-following strategy.
pub mod Trendfollow
use crypto_swing_bot.Prelude.{ℕ, ℤ, Option, List}
use crypto_swing_bot.Prelude.Dict.{Dict}
use crypto_swing_bot.Domain.{Symbol, Time, Candle, Signal, Portfolio}

pub record Input (F D : Type 0) : Type 0 where
  pub as_of : Time
  pub series : Dict (List (Candle F))
  pub universe : List Symbol
  pub portfolio : Portfolio F D

-- The interface `Strategy`; `none` is an error. `Params` is for the record of a run only.
pub record Strategy (F D : Type 0) : Type 0 where
  pub name : ℕ
  pub warmup_bars : ℤ
  pub evaluate : Input F D → Option (List (Signal F))
