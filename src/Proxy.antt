-- ===== src/Proxy.antt =====
-- The caching HTTP proxy: Assignment_4/lib.c, lib.h and config.h.
pub mod Sockets
pub mod Links
pub mod Http
pub mod Heap
pub mod Cache
pub mod Fds
pub mod Transfer
pub mod Handlers
pub mod Service
mod Tests
