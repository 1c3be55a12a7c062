-- ===== src/Proxy/Service/Stale.antt =====
-- The traversal behind a client whose answer has been sent to its end.
use ecen_602_projects.Common.{ℕ, suc, ◌+◌, ◌≤◌, ◌≡◌, ◌≢◌, true, none, some, ◌∷◌, ◌++◌, ne→==-false}
use ecen_602_projects.Memory.{fault}
use ecen_602_projects.Proxy.Links.{Ptr, null, Distinct-back}
use ecen_602_projects.Proxy.Heap.{writing, client, FdNode, CacheNode, World}
use ecen_602_projects.Proxy.Heap.Steps.{load_fd-ok, load_fd-fault}
use ecen_602_projects.Proxy.Cache.{CacheQueue}
use ecen_602_projects.Proxy.Fds.{FdList}
use ecen_602_projects.Proxy.Fds.Order.{Cells, IsList}
use ecen_602_projects.Proxy.Transfer.{Env, send_size}
use ecen_602_projects.Proxy.Transfer.Receive.{Fits}
use ecen_602_projects.Proxy.Handlers.Leave.{linked_f, at_p, client_write_handler-Dropped}
use ecen_602_projects.Proxy.Service.Defs.{Ready, serve_client, serve_node, serve_nodes}

serve_nodes-fault :
    (env : Env) (l : FdList) (ready : Ready) (q : CacheQueue) (left : ℕ) (w : World) (p : Ptr)
    → p ≢ null
    → w.fds p ≡ none
    → serve_nodes env l ready (suc left) p q w ≡ fault
unfolding serve_nodes
serve_nodes-fault env l ready q left w p ne gone =
    rw (ne→==-false p null ne, load_fd-fault w p gone)

-- The traversal follows a pointer to a freed node as soon as an answer has been sent to its end.
pub serve_nodes-stale :
    (env : Env) (l : FdList) (ready : Ready) (q : CacheQueue) (left : ℕ) (w : World) (xs ys : Cells)
    (x p y : Ptr) (cx f cy : FdNode) (c : CacheNode) (n : ℕ)
    → IsList w (xs ++ (x, cx) ∷ (p, f) ∷ (y, cy) ∷ ys)
    → f.cache_node ≢ null
    → w.caches f.cache_node ≡ some c
    → Fits f.offset c
    → f.fd_type ≡ client
    → f.status ≡ writing
    → ready.writable f.fd ≡ true
    → ready.taken (suc left) p ≡ some n
    → n ≤ send_size c f
    → c.buffer_size ≤ f.offset + n
    → serve_nodes env l ready (suc (suc left)) p q w ≡ fault
unfolding serve_nodes serve_node serve_client
serve_nodes-stale env l ready q left w xs ys x p y cx f cy c n is ne' cell fits type status
      can_write took n_size end =
    let (w', run, d) =
      client_write_handler-Dropped w xs ys x p y cx f cy c n is ne' cell fits type n_size end in
    rw
      (
        ne→==-false p null p_ne,
        load_fd-ok w p p_ne (linked_f w xs ys x p y cx f cy c n is ne' cell fits type n_size end)
            (at_p w xs ys x p y cx f cy c n is ne' cell fits type n_size end),
        type,
        status,
        can_write,
        took,
        run,
      )
      (serve_nodes-fault env l ready q left w' p p_ne d.gone)
  where
    p_ne : p ≢ null
    p_ne = (Distinct-back xs ((x, cx) ∷ (p, f) ∷ (y, cy) ∷ ys) is.1).2.0
