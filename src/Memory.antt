-- ===== src/Memory.antt =====
-- Arrays of bytes and the C library's operations on them.
mod Defs
mod Laws
mod Outcomes
unfoldable pub use Defs.*
pub use Laws.*
pub use Outcomes.*
