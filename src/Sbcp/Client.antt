-- ===== src/Sbcp/Client.antt =====
-- The client: Assignment_2/client.c, with update_idle_time and parse_msg_ack of client_lib.c.
mod Defs
pub mod Idle
pub mod Exchange
mod Tests
unfoldable pub use Defs.*
