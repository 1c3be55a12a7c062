-- ===== src/Proxy/Heap/Steps.antt =====
-- The commands on nodes that are allocated.
use ecen_602_projects.Common.{◌≡◌, ◌≢◌, Option, some, none, arith, ne→==-false, ==_self}
use ecen_602_projects.Memory.{ok, fault}
use ecen_602_projects.Proxy.Links.{Ptr, null, Heap, write}
use ecen_602_projects.Proxy.Heap.Defs.{
  CacheNode, FdNode, World, load, load_cache, load_fd, put_cache, put_fd, update_cache, update_fd,
}

module _ {A : Type 0} (h : Heap A) (p : Ptr) where
  pub load-ok : (c : A) → p ≢ null → h p ≡ some c → load h p ≡ ok c
  unfolding load
  load-ok c ne e = rw (ne→==-false p null ne, e)

  pub write_self : (c : Option A) → write h p c p ≡ c
  unfolding write
  write_self c = rw (==_self p)

  pub write_other : (c : Option A) (a : Ptr) → a ≢ p → write h p c a ≡ h a
  unfolding write
  write_other c a ne = rw (ne→==-false a p ne)

module _ (w : World) (p : Ptr) (ne : p ≢ null) where
  pub load_cache-ok : (c : CacheNode) → w.caches p ≡ some c → load_cache p w ≡ ok (c, w)
  unfolding load_cache
  load_cache-ok c e = rw (load-ok w.caches p c ne e)

  pub load_fd-ok : (c : FdNode) → w.fds p ≡ some c → load_fd p w ≡ ok (c, w)
  unfolding load_fd
  load_fd-ok c e = rw (load-ok w.fds p c ne e)

  pub update_cache-ok :
      (c : CacheNode) (f : CacheNode → CacheNode)
      → w.caches p ≡ some c
      → update_cache p f w ≡ ok (tt, record w { caches = write w.caches p (some (f c)) })
  unfolding update_cache put_cache
  update_cache-ok c f e = rw (load_cache-ok c e)

  pub update_fd-ok :
      (c : FdNode) (f : FdNode → FdNode)
      → w.fds p ≡ some c
      → update_fd p f w ≡ ok (tt, record w { fds = write w.fds p (some (f c)) })
  unfolding update_fd put_fd
  update_fd-ok c f e = rw (load_fd-ok c e)

-- A node that has been freed.
pub load-fault : {A : Type 0} (h : Heap A) (p : Ptr) → h p ≡ none → load h p ≡ fault
unfolding load
load-fault h p gone = rw gone (ground arith)

pub load_fd-fault : (w : World) (p : Ptr) → w.fds p ≡ none → load_fd p w ≡ fault
unfolding load_fd
load_fd-fault w p gone = rw (load-fault w.fds p gone)

pub load_cache-fault : (w : World) (p : Ptr) → w.caches p ≡ none → load_cache p w ≡ fault
unfolding load_cache
load_cache-fault w p gone = rw (load-fault w.caches p gone)
