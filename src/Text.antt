-- ===== src/Text.antt =====
-- Python's `str` as the list of its code points, with the methods that the addons call.

mod Defs
pub mod Strip
pub mod Equality
unfoldable pub use Defs.*
