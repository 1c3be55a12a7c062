-- ===== src/Tftp/Request.antt =====
-- What both handlers do before the transfer: the calls of the system, and the error packet for a
-- file that is not there or is there already (Assignment_3/lib.c lines 403-414 and 508-520).
mod Defs
pub mod Reply
unfoldable pub use Defs.*
