-- ===== src/Proxy/Fds.antt =====
-- The list of descriptors: Assignment_4/lib.c lines 379-517.
mod Defs
pub mod Order
pub mod Remove
pub mod Append
pub mod Select
unfoldable pub use Defs.*
