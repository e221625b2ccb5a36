-- ===== src/Capital.antt =====
-- scripts/capital_sim.py: which arbitrages count, and how much capital they hold at once. Times are in
-- milliseconds.
pub mod Peak
pub mod Select
pub mod Economics
pub mod Afford
mod Tests
