-- ===== src/Persistence.antt =====
-- scripts/analyze_persistence.py: from the log of transitions to the episodes of each market's edge.
pub mod Category
pub mod Episodes
mod Tests
