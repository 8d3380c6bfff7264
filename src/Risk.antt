-- ===== src/Risk.antt =====
-- internal/risk, and the sections of internal/config that it reads: what stands between a strategy's
-- signal and an order.
pub mod Sizer
pub mod Gate
pub mod Breaker
mod Tests
