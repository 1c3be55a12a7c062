-- ===== src/Tftp/Packet.antt =====
-- Packets as structs, their layout in a buffer, and the parsers: Assignment_3/lib.c lines 103-175
-- and 223-308. `buf_send` and `buf_recv` of the handlers have 516 bytes.
mod Defs
pub mod Layout
pub mod Request
unfoldable pub use Defs.*
