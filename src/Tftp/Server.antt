-- ===== src/Tftp/Server.antt =====
-- The loop of the server: one request and the child process that serves it (Assignment_3/server.c
-- lines 44-82). The children run on their own, each on the request that its parent received last.
mod Defs
pub mod Dispatch
pub mod Copy
unfoldable pub use Defs.*
