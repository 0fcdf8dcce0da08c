-- ===== src/Base.antt =====
-- The names that every module shares: numbers, paths, lists, and the children on Boolean tests,
-- lists, results, byte strings and decimal numerals.
mod Tests
mod Lists
mod Strings
mod Decimal
pub use Tests.*
pub use Lists.*
unfoldable pub use Strings.*
unfoldable pub use Decimal.*
