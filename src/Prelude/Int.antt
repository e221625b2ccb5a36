-- ===== src/Prelude/Int.antt =====
-- Signed integers over the native numbers, under the library's names: every price, quantity and
-- amount of money of the program is such an integer, in a fixed decimal unit.
mod Base
mod Ring
pub mod Rounding
pub mod Sums
unfoldable pub use Base.*
pub use Ring.*
