-- ===== src/Proxy/Transfer.antt =====
-- cache_recv and cache_send: Assignment_4/lib.c lines 546-642.
mod Defs
pub mod Receive
pub mod Send
pub mod Conditional
unfoldable pub use Defs.*
