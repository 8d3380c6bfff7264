-- ===== src/Exchange.antt =====
-- internal/exchange: how the calls of an exchange are paced. The HTTP client itself is not modelled.
pub mod RateLimit
pub mod Backoff
mod Tests
