-- ===== src/Echo.antt =====
-- The echo service: Assignment_1/server.c and client.c.
mod Defs
pub mod Lines
pub mod Sockets
pub mod Session
mod Tests
pub use Defs.*
