-- ===== src/Proxy/Cache.antt =====
-- The LRU cache: Assignment_4/lib.c lines 230-377.
mod Defs
pub mod Queue
pub mod Enqueue
pub mod Search
pub mod Init
pub mod Lookup
pub mod History
pub mod Free
unfoldable pub use Defs.*
