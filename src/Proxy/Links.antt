-- ===== src/Proxy/Links.antt =====
-- Doubly linked lists on a heap, for the two kinds of nodes in Assignment_4/lib.h. A cell is an
-- address with a node, whose own links do not count.
mod Defs
mod Segments
mod Ends
unfoldable pub use Defs.*
pub use Segments.*
pub use Ends.*
