-- ===== src/Sbcp/Router.antt =====
-- msg_router: Assignment_2/server_lib.c lines 246-331.
pub mod Defs
pub mod Leave
pub mod Ack
pub mod Join
