-- ===== src/Proxy/Heap.antt =====
-- The state of the proxy: its nodes on the heap, and what it has sent and closed.
mod Defs
pub mod Steps
unfoldable pub use Defs.*
