-- ===== src/Socket.antt =====
-- The loops over the addresses that getaddrinfo gives, which all the programs have, and the
-- descriptors that they leave open and listen on.
mod Defs
pub mod Held
pub mod Listen
unfoldable pub use Defs.*
