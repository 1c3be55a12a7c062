-- ===== src/Sbcp.antt =====
-- The SBCP chat: Assignment_2/config.h, common_lib.c, server_lib.c, client_lib.c, client.c.
pub mod Service
pub mod Sockets
pub mod Message
pub mod Clients
pub mod Router
pub mod Client
mod Tests
