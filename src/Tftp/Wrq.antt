-- ===== src/Tftp/Wrq.antt =====
-- The write request handler: Assignment_3/lib.c lines 482-603.
mod Defs
pub mod Rounds
pub mod Transfer
pub mod Faults
unfoldable pub use Defs.*
