-- ===== src/Bankroll.antt =====
-- The walks of a fixed bankroll through the episodes: scripts/account_sim.py and
-- scripts/alloc_policy_experiment.py.
pub mod Account
pub mod Policy
pub mod Recycle
mod Tests
