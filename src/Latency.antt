-- ===== src/Latency.antt =====
-- scripts/shadow_fill.py: which episodes an order would still have met, so long after their OPEN. A time and a
-- latency are in milliseconds, a net edge in 1/10000 dollar.
pub mod Trajectory
pub mod Fill
mod Tests
