-- ===== src/Ledger.antt =====
-- bot/ledger.py: the fee models, the choice of the better direction, and the ledger of positions.
pub mod Units
pub mod Fees
pub mod Signal
pub mod Account
