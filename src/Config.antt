-- ===== src/Config.antt =====
-- internal/config: the sections of config.yaml that the modelled parts read. An `int` may be negative
-- in the file, so it is a ℤ.
use crypto_swing_bot.Prelude.{ℤ}

pub record RiskConfig (F : Type 0) : Type 0 where
  pub risk_per_trade : F
  pub max_positions : ℤ
  pub max_exposure : F
  pub max_position_pct : F
  pub cooldown_hours : ℤ

pub record BreakerConfig (F : Type 0) : Type 0 where
  pub max_drawdown : F
  pub max_daily_loss : F
  pub max_consecutive_losses : ℤ
  pub max_order_errors_24h : ℤ
