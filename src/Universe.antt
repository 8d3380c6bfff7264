-- ===== src/Universe.antt =====
-- internal/universe: which symbols may be traded on a day (filter.go).
pub mod Names
pub mod Filter
mod Tests
