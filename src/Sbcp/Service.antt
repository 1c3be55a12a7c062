-- ===== src/Sbcp/Service.antt =====
-- The server's loop: main of Assignment_2/server.c behind server_init.
mod Defs
pub mod Left
pub mod Open
unfoldable pub use Defs.*
