-- ===== src/Text.antt =====
-- Python texts: characters, stripping, splitting, decimal numbers.
mod Chars
mod Split
mod Number
unfoldable pub use Chars.*
unfoldable pub use Split.*
unfoldable pub use Number.*
