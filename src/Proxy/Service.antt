-- ===== src/Proxy/Service.antt =====
-- The service loop: Assignment_4/proxy.c.
mod Defs
pub mod Stale
unfoldable pub use Defs.*
