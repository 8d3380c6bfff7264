-- ===== src/Indicator.antt =====
-- internal/indicator: the technical indicators, each a list as long as its input. `Slice` has the
-- access to a slice and the list of NaNs; the averages and the oscillators follow.
pub mod Slice
pub mod Average
pub mod Oscillator
pub mod Extends
pub mod Causal
mod Tests
