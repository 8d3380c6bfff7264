-- ===== src/Broker.antt =====
-- internal/broker: the paper broker that backtests and paper trading share. `Book` has its state,
-- `Fill` the settlement of one order, `Day` the method `Advance`, `Orders` the methods that place,
-- cancel and read orders, and `View` what a caller sees of the account.
pub mod Book
pub mod Fill
pub mod Day
pub mod Orders
pub mod View
pub mod Invariant
pub mod Ledger
mod Tests
