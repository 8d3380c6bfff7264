-- ===== src/Engine.antt =====
-- internal/engine: the daily loop of paper trading, with the tables of internal/store that it keeps.
pub mod World
pub mod After
pub mod Tables
pub mod Resubmit
pub mod Rebuild
pub mod Decisions
pub mod Notices
pub mod Exits
pub mod Entries
pub mod Sync
pub mod Daily
pub mod Scheduler
mod Tests
