-- ===== src/Sbcp/Message.antt =====
-- Messages: the structs and enums of Assignment_2/config.h, get_msg_type (common_lib.c), the
-- make_msg functions and parsers of server_lib.c and client_lib.c.
mod Defs
pub mod Layout
pub mod Exchange
unfoldable pub use Defs.*
