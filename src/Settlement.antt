-- ===== src/Settlement.antt =====
-- scripts/settle_recon.py and scripts/settlement_identity.py: whether two venues settle alike.
pub mod Days
pub mod Verdicts
mod Tests
