-- ===== src/Proxy/Handlers/Evict.antt =====
-- The cache node that an insertion evicts, for a client that has not been served to the end.
use ecen_602_projects.Common.{ℕ, ◌≡◌, ◌≢◌, ap, ◌∙◌, false, Option, some, [], ◌∷◌, ◌++◌}
use ecen_602_projects.Memory.{ok, fault}
use ecen_602_projects.Proxy.Links.{Ptr, null, has}
use ecen_602_projects.Proxy.Heap.{idle, CacheNode, FdNode, World}
use ecen_602_projects.Proxy.Heap.Steps.{load_fd-ok, load_cache-fault}
use ecen_602_projects.Proxy.Cache.{CacheQueue, cache_enqueue, is_idle}
use ecen_602_projects.Proxy.Cache.Queue.{Cells, IsQueue}
use ecen_602_projects.Proxy.Cache.Enqueue.{cache_enqueue-Enqueued}
use ecen_602_projects.Proxy.Transfer.{cache_send}

-- An insertion frees the last node of the cache even if a connection is still to be served from it: the
-- next call of cache_send for that connection follows a pointer to a freed node.
pub cache_send-cache_enqueue :
    (w : World) (q : CacheQueue) (xs : Cells) (s e p r : Ptr) (cs ce c : CacheNode) (f : FdNode)
    (result : Option ℕ)
    → IsQueue w q (xs ++ (s, cs) ∷ (e, ce) ∷ [])
    → p ≢ null
    → w.caches p ≡ some c
    → has p (xs ++ (s, cs) ∷ (e, ce) ∷ []) ≡ false
    → ce.status ≡ idle
    → r ≢ null
    → w.fds r ≡ some f
    → f.cache_node ≡ e
    → (w' : World) × (cache_enqueue q p w ≡ ok (record q { front = p; rear = s }, w'))
      × (cache_send r result w' ≡ fault)
unfolding cache_send
cache_send-cache_enqueue w q xs s e p r cs ce c f result is ne new out free r_ne node shared =
    let (w', run, d) = cache_enqueue-Enqueued w q xs s e p cs ce c is ne new out in
    (
      w',
      run,
      rw (
        load_fd-ok w' r r_ne f (ap (λ h. h r) d.fds ∙ node),
        shared,
        load_cache-fault w' e (d.last ∙ rw (ap is_idle free)),
      ),
    )
