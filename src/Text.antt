-- ===== src/Text.antt =====
-- Go strings as sequences of bytes, with the functions of package strings that the code calls.
-- A string literal is `codes "…"`; all literals of the code are ASCII.
mod Defs
pub mod Laws
pub mod Order
pub mod Int
pub mod Decimal
unfoldable pub use Defs.*
