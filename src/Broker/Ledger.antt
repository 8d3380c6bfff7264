-- ===== src/Broker/Ledger.antt =====
-- The account of the paper broker balances: what its settlements do to cash, positions and trades,
-- stated for a number type whose addition is exact. A `float64` is one up to its rounding.
pub mod Exact
pub mod Sums
pub mod Balance
