-- ===== src/Tftp/Rrq.antt =====
-- The read request handler: Assignment_3/lib.c lines 377-478.
mod Defs
pub mod Content
pub mod Rounds
pub mod Steps
pub mod Retries
pub mod Transfer
unfoldable pub use Defs.*
