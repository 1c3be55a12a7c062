-- ===== src/Proxy/Fds/Order.antt =====
-- The list of descriptors, as the list of its nodes.
use ecen_602_projects.Common.{◌≡◌, false, List}
use ecen_602_projects.Proxy.Links.{Ptr, null, has, Distinct, Links}
use ecen_602_projects.Proxy.Heap.{FdNode, fd_links, World}

abbrev pub Cells : Type 0
Cells = List (Ptr × FdNode)

abbrev pub IsList : World → Cells → Type 0
IsList w cells = Links fd_links w.fds null cells null × Distinct cells

-- Only the list of descriptors has changed, and only at these addresses.
pub record Changed (w : World) (cells : Cells) (w' : World) : Type 0 where
  pub same : (a : Ptr) → has a cells ≡ false → w'.fds a ≡ w.fds a
  pub caches : w'.caches ≡ w.caches
  pub out : w'.out ≡ w.out
