-- ===== src/Feed.antt =====
-- internal/datafeed: the checks of the bars that come in (quality.go). Fetching them is network and
-- database I/O.
pub mod Quality
mod Tests
