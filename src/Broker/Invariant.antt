-- ===== src/Broker/Invariant.antt =====
-- One position for each symbol: the invariant that `Submit` guards and that `Fill` and `Day` rely on.
mod Queue
mod Well
mod Filling
mod Histories
pub use Queue.*
pub use Well.*
pub use Filling.*
pub use Histories.*
