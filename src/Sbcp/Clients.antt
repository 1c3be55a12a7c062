-- ===== src/Sbcp/Clients.antt =====
-- The linked list of connections behind the listening node: Assignment_2/server_lib.c lines 5-82 and
-- 227-303. The list stands for the nodes in order; the descriptors of open connections differ.
mod Defs
pub mod Nodes
pub mod Names
unfoldable pub use Defs.*
