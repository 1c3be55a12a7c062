-- ===== src/Tftp.antt =====
-- The TFTP server: Assignment_3/lib.c, Assignment_3/lib.h, Assignment_3/config.h and
-- Assignment_3/server.c.
pub mod Sockets
pub mod Opcode
pub mod Packet
pub mod File
pub mod Session
pub mod Request
pub mod Rrq
pub mod Wrq
pub mod Server
mod Tests
