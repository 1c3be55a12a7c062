-- ===== src/Tftp/File.antt =====
-- Reading a file in blocks and writing received blocks: Assignment_3/lib.c lines 34-82 and 155-217.
-- A file is the list of the bytes that are left to read. `char` is signed, as on x86-64, so that
-- the byte 255 equals EOF when it is held in a `char`.
mod Defs
pub mod Read
pub mod Write
unfoldable pub use Defs.*
