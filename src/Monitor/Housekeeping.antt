-- ===== src/Monitor/Housekeeping.antt =====
-- The upkeep of bot/monitor.py over a long run: which markets to free, the cursor of the trade poll,
-- the watch on the fees of the venue, and the ladder records.
pub mod Prune
pub mod Teardown
pub mod Trades
pub mod TradeLog
pub mod Paging
pub mod FeeWatch
pub mod Ladders
mod Tests
