-- ===== src/Proxy/Handlers.antt =====
-- The five handlers: Assignment_4/lib.c lines 714-829.
mod Defs
pub mod Leave
pub mod Evict
pub mod Accept
unfoldable pub use Defs.*
