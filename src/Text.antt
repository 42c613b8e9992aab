-- ===== src/Text.antt =====
-- C strings, and what the source uses of the C library on them.
mod Bytes
mod Numbers
pub mod Decimal
pub mod Dirname
pub mod Lines
unfoldable pub use Bytes.*
unfoldable pub use Numbers.*
