-- ===== src/Monitor.antt =====
-- bot/monitor.py: from the books of the two venues to a log of edge transitions.
pub mod Edge
pub mod Depth
pub mod Market
pub mod Game
pub mod Debounce
pub mod Housekeeping
pub mod Live
