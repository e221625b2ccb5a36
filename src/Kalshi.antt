-- ===== src/Kalshi.antt =====
-- bot/kalshi_book.py: the local order book of a Kalshi market, and the guard of the sequence numbers.
pub mod Book
pub mod Seq
mod Tests
